-- ===== src/OrderController/Remove.antt =====
-- The tickets that reconcileTickets and handleDeletion delete.
use mathlib.Core.List.{reverse, reverse-append, reverse-reverse}
use korder.Prelude.{
  ℕ, ◌+◌, ◌<◌, ◌≡◌, refl, ap, ◌∙◌, Bool, true, ◌&&◌, Option, none, some, List, [], ◌∷◌, ◌++◌, arith,
  length, get_or, length-append, map,
}
use korder.Prelude.Int.{pos, ◌-ℤ◌, wrap32, wrap32-pos}
use korder.Api.Ticket.{Ticket}
use korder.Api.Order.{Order, RefreshPolicy}
use korder.Client.{
  Cluster, Error, is_not_found, ok, Trace, delete_ticket, update_order, list_tickets, calls, done,
}
use korder.OrderController.Tickets.{
  order_finalizer, owner_labels, owned_tickets, filter_active, len32,
}
use korder.OrderController.Balance.{
  delete_last, by_policy, handle_excess, balance, reconcile_tickets, five_minutes,
}
use korder.OrderController.Reconcile.{delete_all, delete_owned, handle_deletion}

-- Deletions in order, onto the calls so far.
deletions : List Ticket → Trace → Trace
deletions [] tr = tr
deletions (t ∷ ts) tr = deletions ts (delete_ticket t ∷ tr)

deletions-append :
    (ts us : List Ticket) (tr : Trace) → deletions (ts ++ us) tr ≡ deletions us (deletions ts tr)
unfolding deletions
deletions-append [] us tr = refl
deletions-append (t ∷ ts) us tr = deletions-append ts us (delete_ticket t ∷ tr)

-- Deleting from the last to the first leaves the calls in the order of the list.
deletions-reverse :
    (ts : List Ticket) (tr : Trace) → deletions (reverse ts) tr ≡ map delete_ticket ts ++ tr
unfolding deletions
deletions-reverse [] tr = refl
deletions-reverse (t ∷ ts) tr = rw (reverse-append (t ∷ []) ts) (
    deletions-append (reverse ts) (t ∷ []) tr
    ∙ ap (λ r. delete_ticket t ∷ r) (deletions-reverse ts tr))

pub length-reverse : (ts : List Ticket) → length (reverse ts) ≡ length ts
length-reverse [] = refl
length-reverse (t ∷ ts) =
    rw (reverse-append (t ∷ []) ts)
      (length-append (reverse ts) (t ∷ []) ∙ omega (arith, length-reverse ts))

abbrev pub DeletesSucceed : Cluster → Type 0
DeletesSucceed env = (tr : Trace) (t : Ticket) → env.write_error tr (delete_ticket t) ≡ none

module _ (env : Cluster) (works : DeletesSucceed env) where
  delete_last_front :
      (rs rest : List Ticket) (tr : Trace)
      → delete_last env (length rs) (rs ++ rest) tr ≡ (some none, deletions rs tr)
  unfolding delete_last deletions
  delete_last_front [] rest tr = refl
  delete_last_front (r ∷ rs) rest tr =
      rw (works tr r) (delete_last_front rs rest (delete_ticket r ∷ tr))

  delete_last_exact :
      (kept removed : List Ticket) (tr : Trace)
      → delete_last env (length removed) (reverse (kept ++ removed)) tr
        ≡ (some none, map delete_ticket removed ++ tr)
  delete_last_exact kept removed tr = rw (reverse-append kept removed) (
      rw (← length-reverse removed) (
        delete_last_front (reverse removed) (reverse kept) tr
        ∙ ap (λ (r : Trace). (some none, r)) (deletions-reverse removed tr)))

pub excess_rounds : (k r : ℕ) → k + r < 2147483648 → wrap32 (pos (k + r) -ℤ pos k) ≡ pos r
unfolding ◌-ℤ◌
excess_rounds k r small = ground (arith, wrap32-pos r (omega arith))

pub len32_small : (ts : List Ticket) → length ts < 2147483648 → len32 ts ≡ pos (length ts)
len32_small ts h = wrap32-pos (length ts) h

handle_excess_always :
    (env : Cluster) (order : Order) (kept removed : List Ticket) (tr : Trace)
    → DeletesSucceed env
    → order.spec.refresh_policy ≡ RefreshPolicy.always
    → 0 < length removed
    → length kept + length removed < 2147483648
    → handle_excess env order (kept ++ removed) (pos (length kept)) tr
      ≡ (some none, map delete_ticket removed ++ tr)
unfolding handle_excess by_policy
handle_excess_always env order kept removed tr works always more small =
    let size = length-append kept removed in
    ground (
      arith,
      len32_small (kept ++ removed) (omega arith),
      excess_rounds (length kept) (length removed) small,
      delete_last_exact env works kept removed tr,
    )

-- With the policy Always, where more tickets are active than the order wants and deletions succeed,
-- reconcileTickets deletes exactly the active tickets beyond the wanted number, the last ones, each
-- once, and keeps the first ones; it makes no other call than the listing. The numbers fit int32.
pub reconcile_tickets-trims :
    (env : Cluster) (order : Order) (ts kept removed : List Ticket) (tr : Trace)
    → DeletesSucceed env
    → env.tickets_at tr order.meta.namespace (owner_labels order) ≡ ok ts
    → order.spec.refresh_policy ≡ RefreshPolicy.always
    → get_or order.spec.replicas (pos 1) ≡ pos (length kept)
    → filter_active ts ≡ kept ++ removed
    → 0 < length removed
    → length kept + length removed < 2147483648
    → reconcile_tickets env order tr ≡ (
      some (ok five_minutes),
      map delete_ticket removed ++ list_tickets order.meta.namespace (owner_labels order) ∷ tr,
    )
unfolding reconcile_tickets owned_tickets balance
reconcile_tickets-trims env order ts kept removed tr works listed always wants active more small =
    let tr' = list_tickets order.meta.namespace (owner_labels order) ∷ tr in
    let size = length-append kept removed in
    ground (
      arith,
      len32_small (kept ++ removed) (omega arith),
      handle_excess_always env order kept removed tr' works always more small,
    )

delete_all_done :
    (env : Cluster) (ts : List Ticket) (tr : Trace)
    → (delete_all env ts tr).0 ≡ some none
    → (delete_all env ts tr).1 ≡ deletions ts tr
unfolding delete_all deletions
delete_all_done env [] tr h = refl
delete_all_done env (t ∷ ts) tr h = ground (arith, delete_all_done env ts (delete_ticket t ∷ tr))

deletions-eq-reverse :
    (ts : List Ticket) (tr : Trace) → deletions ts tr ≡ map delete_ticket (reverse ts) ++ tr
deletions-eq-reverse ts tr =
    rw (← reverse-reverse ts) (deletions-reverse (reverse ts) tr ∙ rw (reverse-reverse ts))

-- The answers to a deletion after which deleteOwnedTickets goes on.
abbrev pub is_taken : Option Error → Bool
is_taken none = true
is_taken (some e) = is_not_found e

-- Whether the server has taken each deletion, made in order after the calls: it accepts the deletion,
-- or it has no such ticket.
abbrev pub all_taken : Cluster → List Ticket → Trace → Bool
all_taken env [] tr = true
all_taken env (t ∷ ts) tr =
    is_taken (env.write_error tr (delete_ticket t)) && all_taken env ts (delete_ticket t ∷ tr)

delete_all_taken :
    (env : Cluster) (ts : List Ticket) (tr : Trace)
    → (delete_all env ts tr).0 ≡ some none
    → all_taken env ts tr ≡ true
unfolding delete_all
delete_all_taken env [] tr h = refl
delete_all_taken env (t ∷ ts) tr h = ground (arith, delete_all_taken env ts (delete_ticket t ∷ tr))

-- If the deletion of an order ends without an error, then the server was asked to delete every
-- ticket that was listed for it, each once and in order, and it has accepted each of these deletions
-- or had no such ticket; the removal of the order's finalizer comes after them, and no other call.
pub handle_deletion-deletes_all :
    (env : Cluster) (order : Order) (ts : List Ticket) (tr : Trace)
    → env.tickets_at tr order.meta.namespace (owner_labels order) ≡ ok ts
    → (handle_deletion env order tr).0 ≡ some (record { outcome = done; error = none })
    → (calls (handle_deletion env order tr)
        ≡ update_order (record order { meta = env.remove_finalizer order.meta order_finalizer })
          ∷ (map delete_ticket (reverse ts)
              ++ list_tickets order.meta.namespace (owner_labels order) ∷ tr))
      × (all_taken env ts (list_tickets order.meta.namespace (owner_labels order) ∷ tr) ≡ true)
unfolding handle_deletion delete_owned owned_tickets
handle_deletion-deletes_all env order ts tr listed good =
    let tr' = list_tickets order.meta.namespace (owner_labels order) ∷ tr in
    (
      ground (arith, delete_all_done env ts tr', deletions-eq-reverse ts tr'),
      delete_all_taken env ts tr' (ground arith),
    )
