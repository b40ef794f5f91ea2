-- ===== src/OrderController/Policy.antt =====
-- Which tickets reconcileTickets may delete, by the refresh policy.
use mathlib.Core.List.{reverse, reverse-append}
use korder.Prelude.{
  ℕ, zero, suc, ◌≡◌, refl, Bool, true, false, not, ◌&&◌, none, some, List, [], ◌∷◌, ◌++◌, arith,
  allb, get_or, ◌∙◌, inl, inr,
}
use korder.Prelude.Int.{ℤ, pos, pos_part, ◌+ℤ◌, ◌-ℤ◌, wrap32}
use korder.Api.Ticket.{Ticket, is_claimed, is_expired}
use korder.Api.Meta.{Key}
use korder.Api.Order.{Order, RefreshPolicy}
use korder.Client.{
  Cluster, ok, Call, Trace, delete_ticket, create_ticket, list_tickets, calls, Reply-cases,
}
use korder.OrderController.Tickets.{
  owner_labels, owned_tickets, is_active, filter_active, len32, create_ticket as create_one,
  create_tickets,
}
use korder.OrderController.Report.{update_order_status}
use korder.OrderController.Balance.{
  delete_last, delete_claimed, by_policy, handle_excess, balance, reconcile_tickets,
}
use korder.OrderController.Reconcile.{reconcile_found, reconcile}

-- The tickets that a policy lets the controller delete.
abbrev pub allows : RefreshPolicy → Ticket → Bool
allows RefreshPolicy.always t = not (is_expired t.status.phase)
allows RefreshPolicy.on_claim t = is_claimed t.status.phase
allows _ t = false

abbrev pub may_delete : RefreshPolicy → Call → Bool
may_delete policy (delete_ticket t) = allows policy t
may_delete policy c = true

allb-append {ℓ} :
    {A : Type ℓ} (p : A → Bool) (xs ys : List A) → allb p (xs ++ ys) ≡ (allb p xs && allb p ys)
allb-append p [] ys = refl
allb-append p (x ∷ xs) ys = ground (arith, allb-append p xs ys)

allb-reverse {ℓ} : {A : Type ℓ} (p : A → Bool) (xs : List A) → allb p (reverse xs) ≡ allb p xs
allb-reverse p [] = refl
allb-reverse p (x ∷ xs) =
    rw (reverse-append (x ∷ []) xs)
      (allb-append p (reverse xs) (x ∷ []) ∙ ground (arith, allb-reverse p xs))

filter_active_active : (ts : List Ticket) → allb is_active (filter_active ts) ≡ true
unfolding filter_active
filter_active_active [] = refl
filter_active_active (t ∷ ts) = ground (arith, filter_active_active ts)

abbrev Allowed : RefreshPolicy → Trace → Type 0
Allowed policy tr = allb (may_delete policy) tr ≡ true

module _ (env : Cluster) (policy : RefreshPolicy) where
  create_one-Allowed :
      (order : Order) (index : ℤ) (tr : Trace)
      → Allowed policy tr
      → Allowed policy (create_one env order index tr).1
  unfolding create_one
  create_one-Allowed order index tr h = ground arith

  create_tickets-Allowed :
      (order : Order) (rounds : ℕ) (index : ℤ) (tr : Trace)
      → Allowed policy tr
      → Allowed policy (create_tickets env order rounds index tr).1
  unfolding create_tickets
  create_tickets-Allowed order zero index tr h = h
  create_tickets-Allowed order (suc rounds) index tr h =
      let tr' = (create_one env order index tr).1 in
      let next = wrap32 (index +ℤ pos 1) in
      ground
        (arith, create_one-Allowed order index tr, create_tickets-Allowed order rounds next tr')

  delete_last-Allowed :
      (rounds : ℕ) (ts : List Ticket) (tr : Trace)
      → allb (allows policy) ts ≡ true
      → Allowed policy tr
      → Allowed policy (delete_last env rounds ts tr).1
  unfolding delete_last
  delete_last-Allowed zero ts tr all h = h
  delete_last-Allowed (suc rounds) [] tr all h = h
  delete_last-Allowed (suc rounds) (t ∷ ts) tr all h =
      ground (arith, delete_last-Allowed rounds ts (delete_ticket t ∷ tr))

delete_claimed-Allowed :
    (env : Cluster) (left : ℕ) (ts : List Ticket) (tr : Trace)
    → Allowed RefreshPolicy.on_claim tr
    → Allowed RefreshPolicy.on_claim (delete_claimed env left ts tr).1
unfolding delete_claimed
delete_claimed-Allowed env left [] tr h = h
delete_claimed-Allowed env zero (t ∷ ts) tr h = h
delete_claimed-Allowed env (suc left) (t ∷ ts) tr h = ground (
  arith,
  delete_claimed-Allowed env left ts (delete_ticket t ∷ tr),
  delete_claimed-Allowed env (suc left) ts tr,
)

by_policy-Allowed :
    (env : Cluster) (policy : RefreshPolicy) (excess : ℕ) (ts : List Ticket) (tr : Trace)
    → Allowed policy tr
    → Allowed policy (by_policy env policy excess (filter_active ts) tr).1
unfolding by_policy
by_policy-Allowed env RefreshPolicy.always excess ts tr h =
    delete_last-Allowed env RefreshPolicy.always excess (reverse (filter_active ts)) tr
      (allb-reverse is_active (filter_active ts) ∙ filter_active_active ts) h
by_policy-Allowed env RefreshPolicy.on_claim excess ts tr h =
    delete_claimed-Allowed env excess (reverse (filter_active ts)) tr h
by_policy-Allowed env _ excess ts tr h = h

balance-Allowed :
    (env : Cluster) (order : Order) (ts : List Ticket) (tr : Trace)
    → Allowed order.spec.refresh_policy tr
    → Allowed order.spec.refresh_policy (balance env order ts tr).1
unfolding balance handle_excess
balance-Allowed env order ts tr h =
    let policy = order.spec.refresh_policy in
    let desired = get_or order.spec.replicas (pos 1) in
    let count = len32 (filter_active ts) in
    let rounds = pos_part (wrap32 (desired -ℤ count)) in
    let excess = pos_part (wrap32 (count -ℤ desired)) in
    ground (
      arith,
      create_tickets-Allowed env policy order rounds (len32 ts) tr h,
      by_policy-Allowed env policy excess ts tr h,
    )

-- reconcileTickets deletes a ticket only where the refresh policy lets it, whatever the server
-- answers: with Always one that has not expired, with OnClaim one that is claimed, and with Never, or
-- with a policy that the program does not know, none.
pub reconcile_tickets-allowed :
    (env : Cluster) (order : Order) (tr : Trace)
    → allb (may_delete order.spec.refresh_policy) tr ≡ true
    → allb (may_delete order.spec.refresh_policy) (calls (reconcile_tickets env order tr)) ≡ true
unfolding reconcile_tickets owned_tickets
reconcile_tickets-allowed env order tr h =
    let tr' = list_tickets order.meta.namespace (owner_labels order) ∷ tr in
    elim (Reply-cases (env.tickets_at tr order.meta.namespace (owner_labels order))) [
      | inr (e, bad) ↦ ground arith
      | inl (ts, listed) ↦ ground (arith, balance-Allowed env order ts tr' h)
    ]

-- The calls that leave the tickets alone.
abbrev pub leaves_tickets : Call → Bool
leaves_tickets (create_ticket t) = false
leaves_tickets (delete_ticket t) = false
leaves_tickets c = true

-- While an order is paused, and not deleted, Reconcile creates and deletes no ticket, whatever the
-- server answers.
pub reconcile-paused :
    (env : Cluster) (key : Key) (order : Order) (tr : Trace)
    → env.order_at tr key ≡ ok order
    → order.spec.paused ≡ some true
    → order.meta.deletion_timestamp ≡ none
    → allb leaves_tickets tr ≡ true
    → allb leaves_tickets (calls (reconcile env key tr)) ≡ true
unfolding reconcile reconcile_found update_order_status owned_tickets
reconcile-paused env key order tr found paused alive h = ground arith
