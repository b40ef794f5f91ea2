-- ===== src/OrderController/Returns.antt =====
-- Whether Reconcile returns: the index of AlwaysRefresh, and the runs of the other methods.
use mathlib.Core.List.{reverse}
use korder.Prelude.{
  ℕ, zero, suc, ◌≤◌, ◌<◌, ◌≡◌, refl, true, none, List, [], ◌∷◌, arith, length, get_or, is_some, inl,
  inr, ◌≢◌, ◌-◌,
}
use korder.Prelude.Int.{ℤ, pos, pos_part, ◌+ℤ◌, ◌-ℤ◌, wrap32, wrap32-pos}
use korder.Prelude.Text.{Text, codes}
use korder.Api.Meta.{Key, Labels}
use korder.Api.Ticket.{Ticket}
use korder.Api.Order.{Order, RefreshPolicy}
use korder.Client.{Cluster, ok, Reply-cases, Trace, delete_ticket, list_tickets, get_order}
use korder.OrderController.Tickets.{
  owner_labels, owned_tickets, filter_active, len32, create_ticket, create_tickets,
}
use korder.OrderController.Report.{update_order_status}
use korder.OrderController.Balance.{
  delete_last, delete_claimed, by_policy, handle_excess, balance, reconcile_tickets,
}
use korder.OrderController.Reconcile.{
  reconcile_active, reconcile_found, reconcile, delete_all, delete_owned, handle_deletion,
}
use korder.OrderController.Remove.{length-reverse}

module _ (env : Cluster) where
  create_ticket_returns :
      (order : Order) (index : ℤ) (tr : Trace) → (create_ticket env order index tr).0 ≢ none
  unfolding create_ticket
  create_ticket_returns order index tr = ground arith

  create_tickets_returns :
      (order : Order) (rounds : ℕ) (index : ℤ) (tr : Trace)
      → is_some (create_tickets env order rounds index tr).0 ≡ true
  unfolding create_tickets
  create_tickets_returns order zero index tr = refl
  create_tickets_returns order (suc rounds) index tr = ground (
    arith,
    create_ticket_returns order index tr,
    create_tickets_returns order rounds (wrap32 (index +ℤ pos 1))
        (create_ticket env order index tr).1,
  )

  delete_last_returns :
      (rounds : ℕ) (ts : List Ticket) (tr : Trace)
      → rounds ≤ length ts
      → is_some (delete_last env rounds ts tr).0 ≡ true
  unfolding delete_last
  delete_last_returns zero ts tr h = refl
  delete_last_returns (suc rounds) [] tr h = absurd (omega arith)
  delete_last_returns (suc rounds) (t ∷ ts) tr h =
      ground (arith, delete_last_returns rounds ts (delete_ticket t ∷ tr))

  delete_claimed_returns :
      (left : ℕ) (ts : List Ticket) (tr : Trace) → is_some (delete_claimed env left ts tr).0 ≡ true
  unfolding delete_claimed
  delete_claimed_returns left [] tr = refl
  delete_claimed_returns zero (t ∷ ts) tr = refl
  delete_claimed_returns (suc left) (t ∷ ts) tr = ground (
    arith,
    delete_claimed_returns left ts (delete_ticket t ∷ tr),
    delete_claimed_returns (suc left) ts tr,
  )

  delete_all_returns : (ts : List Ticket) (tr : Trace) → is_some (delete_all env ts tr).0 ≡ true
  unfolding delete_all
  delete_all_returns [] tr = refl
  delete_all_returns (t ∷ ts) tr = ground (arith, delete_all_returns ts (delete_ticket t ∷ tr))

  update_order_status_returns :
      (order : Order) (reason message : Text) (tr : Trace)
      → is_some (update_order_status env order reason message tr).0 ≡ true
  unfolding update_order_status owned_tickets
  update_order_status_returns order reason message tr = ground arith

  by_policy_returns :
      (policy : RefreshPolicy) (excess : ℕ) (ts : List Ticket) (tr : Trace)
      → excess ≤ length ts
      → is_some (by_policy env policy excess ts tr).0 ≡ true
  unfolding by_policy
  by_policy_returns RefreshPolicy.always excess ts tr h =
      delete_last_returns excess (reverse ts) tr (omega (arith, length-reverse ts))
  by_policy_returns RefreshPolicy.on_claim excess ts tr h =
      delete_claimed_returns excess (reverse ts) tr
  by_policy_returns _ excess ts tr h = refl

excess_fits : (k d : ℕ) → d < k → k < 2147483648 → pos_part (wrap32 (pos k -ℤ pos d)) ≤ k
unfolding ◌-ℤ◌
excess_fits k d h small = ground (arith, wrap32-pos (k - d) (omega arith))

balance_returns :
    (env : Cluster) (order : Order) (ts : List Ticket) (tr : Trace) (desired : ℕ)
    → get_or order.spec.replicas (pos 1) ≡ pos desired
    → length (filter_active ts) < 2147483648
    → is_some (balance env order ts tr).0 ≡ true
unfolding balance handle_excess
balance_returns env order ts tr desired wants small =
    let active = filter_active ts in
    let rounds = pos_part (wrap32 (pos desired -ℤ pos (length active))) in
    let excess = pos_part (wrap32 (pos (length active) -ℤ pos desired)) in
    ground (
      arith,
      wrap32-pos (length active) small,
      create_tickets_returns env order rounds (len32 ts) tr,
      excess_fits (length active) desired,
      by_policy_returns env order.spec.refresh_policy excess active tr,
    )

-- The tickets that the server lists are fewer than 2 ^ 31.
abbrev pub ListsAreShort : Cluster → Type 0
ListsAreShort env =
    (tr : Trace) (ns : Text) (ls : Labels) (ts : List Ticket)
    → env.tickets_at tr ns ls ≡ ok ts
    → length (filter_active ts) < 2147483648

reconcile_tickets_returns :
    (env : Cluster) (order : Order) (tr : Trace) (desired : ℕ)
    → ListsAreShort env
    → get_or order.spec.replicas (pos 1) ≡ pos desired
    → is_some (reconcile_tickets env order tr).0 ≡ true
unfolding reconcile_tickets owned_tickets
reconcile_tickets_returns env order tr desired short wants =
    let ns = order.meta.namespace in
    let ls = owner_labels order in
    elim (Reply-cases (env.tickets_at tr ns ls)) [
      | inr (e, bad) ↦ ground arith
      | inl (ts, listed) ↦ ground (
        arith,
        balance_returns env order ts (list_tickets ns ls ∷ tr) desired wants
            (short tr ns ls ts listed),
      )
    ]

reconcile_active_returns :
    (env : Cluster) (order : Order) (tr : Trace) (desired : ℕ)
    → ListsAreShort env
    → get_or order.spec.replicas (pos 1) ≡ pos desired
    → is_some (reconcile_active env order tr).0 ≡ true
unfolding reconcile_active
reconcile_active_returns env order tr desired short wants = grind (
  arith,
  reconcile_tickets_returns env order tr desired short wants,
  update_order_status_returns env,
)

handle_deletion_returns :
    (env : Cluster) (order : Order) (tr : Trace) → is_some (handle_deletion env order tr).0 ≡ true
unfolding handle_deletion delete_owned owned_tickets
handle_deletion_returns env order tr =
    let ns = order.meta.namespace in
    let ls = owner_labels order in
    elim (Reply-cases (env.tickets_at tr ns ls)) [
      | inr (e, bad) ↦ ground arith
      | inl (ts, listed) ↦ ground (arith, delete_all_returns env ts (list_tickets ns ls ∷ tr))
    ]

-- Reconcile returns, and never reads outside a slice, for an order that wants no negative number of
-- tickets, if every list of active tickets is shorter than 2 ^ 31.
pub reconcile_stays_in_slices :
    (env : Cluster) (key : Key) (order : Order) (tr : Trace) (desired : ℕ)
    → ListsAreShort env
    → env.order_at tr key ≡ ok order
    → get_or order.spec.replicas (pos 1) ≡ pos desired
    → is_some (reconcile env key tr).0 ≡ true
unfolding reconcile reconcile_found
reconcile_stays_in_slices env key order tr desired short found wants =
    let tr' = get_order key ∷ tr in
    ground (
      arith,
      handle_deletion_returns env order tr',
      update_order_status_returns env order (codes "Paused") (codes "Order is paused") tr',
      reconcile_active_returns env order tr' desired short wants,
    )
