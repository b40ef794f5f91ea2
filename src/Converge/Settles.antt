-- ===== src/Converge/Settles.antt =====
-- Two runs in a row of reconcileTickets of internal/controller/order_controller.go.
use mathlib.Core.List.{reverse}
use korder.Prelude.{
  ℕ, zero, suc, ◌+◌, ◌-◌, ◌≤◌, ◌<◌, ◌≡◌, refl, Bool, ◌∙◌, sym, ap, true, none, some, List, [], ◌∷◌,
  ◌++◌, arith, length, take, drop, countb, get_or, inl, inr, ◌⊎◌, length-append, length-filterb,
  countb-le-length,
}
use native.Mathlib.Decide.{dec_lt}
use korder.Prelude.Int.{pos}
use korder.Api.Ticket.{Ticket}
use korder.Api.Order.{Order, RefreshPolicy}
use korder.Client.{Cluster, Trace, ok, list_tickets, calls, Outcome}
use korder.OrderController.Tickets.{owner_labels, owned_tickets, is_active, filter_active}
use korder.OrderController.Balance.{
  delete_last, by_policy, handle_excess, balance, reconcile_tickets, five_minutes,
}
use korder.OrderController.Create.{balance_creates, len32-filter_active}
use korder.OrderController.Remove.{excess_rounds, len32_small}
use korder.Converge.Store.{IsStore, SameTickets, has_finalizer}
use korder.Converge.Grow.{held-create_tickets}
use korder.Converge.Shrink.{held-removed}

take-append-drop : (n : ℕ) (ts : List Ticket) → take n ts ++ drop n ts ≡ ts
take-append-drop zero ts = refl
take-append-drop (suc n) [] = refl
take-append-drop (suc n) (t ∷ ts) = ap (λ r. t ∷ r) (take-append-drop n ts)

length-take : (n : ℕ) (ts : List Ticket) → n ≤ length ts → length (take n ts) ≡ n
length-take zero ts h = refl
length-take (suc n) [] h = absurd (omega arith)
length-take (suc n) (t ∷ ts) h = ap suc (length-take n ts (omega arith))

countb-all : (ts : List Ticket) → countb (λ t. true) ts ≡ length ts
countb-all [] = refl
countb-all (t ∷ ts) = ap suc (countb-all ts)

same_length : (ts us : List Ticket) → SameTickets ts us → length ts ≡ length us
same_length ts us same = sym (countb-all ts) ∙ same (λ t. true) ∙ countb-all us

length-filter_active : (ts : List Ticket) → length (filter_active ts) ≡ countb is_active ts
unfolding filter_active
length-filter_active ts = length-filterb is_active ts

balance_stable :
    (env : Cluster) (order : Order) (ts : List Ticket) (tr : Trace)
    → get_or order.spec.replicas (pos 1) ≡ pos (countb is_active ts)
    → length ts < 2147483648
    → balance env order ts tr ≡ (some none, tr)
unfolding balance
balance_stable env order ts tr wants small = ground (arith, len32-filter_active ts small)

balance_deletes :
    (env : Cluster) (order : Order) (ts kept removed : List Ticket) (tr : Trace)
    → order.spec.refresh_policy ≡ RefreshPolicy.always
    → get_or order.spec.replicas (pos 1) ≡ pos (length kept)
    → filter_active ts ≡ kept ++ removed
    → 0 < length removed
    → length kept + length removed < 2147483648
    → balance env order ts tr ≡ delete_last env (length removed) (reverse (kept ++ removed)) tr
unfolding balance handle_excess by_policy
balance_deletes env order ts kept removed tr always wants active more small = ground (
  arith,
  length-append kept removed,
  len32_small (kept ++ removed) (omega (arith, length-append kept removed)),
  excess_rounds (length kept) (length removed) small,
)

module _ (env : Cluster) (order : Order) (held : Trace → List Ticket)
    (store : IsStore env order held) where
  open store use {held-list, lists, none_foreign, names_once}

  abbrev pub listed : Trace → Trace
  listed tr = list_tickets order.meta.namespace (owner_labels order) ∷ tr

  -- A run on as many active tickets as are wanted.
  reconcile_tickets-rests :
      (tr : Trace)
      → get_or order.spec.replicas (pos 1) ≡ pos (countb is_active (held tr))
      → length (held tr) < 2147483648
      → reconcile_tickets env order tr ≡ (some (ok five_minutes), listed tr)
  unfolding reconcile_tickets owned_tickets
  reconcile_tickets-rests tr wants small =
      let (ts, shown, same) = lists tr in
      let size : length ts ≡ length (held tr) = same_length ts (held tr) same in
      ground (
        arith,
        shown,
        same is_active,
        balance_stable env order ts (listed tr) (rw (same is_active) wants) (omega arith),
      )

  reconcile_tickets-balance :
      (ts : List Ticket) (tr : Trace) (o : Outcome)
      → env.tickets_at tr order.meta.namespace (owner_labels order) ≡ ok ts
      → (reconcile_tickets env order tr).0 ≡ some (ok o)
      → ((balance env order ts (listed tr)).0 ≡ some none)
        × (calls (reconcile_tickets env order tr) ≡ (balance env order ts (listed tr)).1)
  unfolding reconcile_tickets owned_tickets
  reconcile_tickets-balance ts tr o shown good = ground arith

  held-listed :
      (p : Ticket → Bool) (ts : List Ticket) (tr : Trace)
      → SameTickets ts (held tr)
      → countb p ts ≡ countb p (held (listed tr))
  held-listed p ts tr same = same p ∙ sym (ap (countb p) (held-list tr))

  -- More tickets are active than are wanted: the first ones are kept.
  reaches_below :
      (ts : List Ticket) (tr : Trace) (desired : ℕ)
      → get_or order.spec.replicas (pos 1) ≡ pos desired
      → order.spec.refresh_policy ≡ RefreshPolicy.always
      → SameTickets ts (held tr)
      → countb has_finalizer (held tr) ≡ 0
      → desired < countb is_active ts
      → desired + length ts < 2147483648
      → (balance env order ts (listed tr)).0 ≡ some none
      → let tr' = (balance env order ts (listed tr)).1 in
        (countb is_active (held tr') ≡ desired) × (length (held tr') ≤ length (held (listed tr)))
  reaches_below ts tr desired wants always same free more small fine =
      let kept = take desired (filter_active ts) in
      let removed = drop desired (filter_active ts) in
      let split : filter_active ts ≡ kept ++ removed =
        sym (take-append-drop desired (filter_active ts)) in
      let size : length (filter_active ts) ≡ countb is_active ts = length-filter_active ts in
      let number : length kept ≡ desired =
        length-take desired (filter_active ts) (omega (arith, size)) in
      let sum = ap length split ∙ length-append kept removed in
      let run =
        balance_deletes env order ts kept removed (listed tr) always (wants ∙ ap pos (sym number))
          split (omega (arith, sum, size, number))
          (omega (arith, sum, size, number, countb-le-length is_active ts)) in
      let (active, shorter) =
        held-removed env order held store ts kept removed (listed tr)
          (λ p. held-listed p ts tr same) (none_foreign (listed tr))
          (ap (countb has_finalizer) (held-list tr) ∙ free) (names_once (listed tr)) split
          (rw (← run) fine) in
      rw run (active ∙ number, shorter)

  -- A run that returns without an error leaves as many active tickets as are wanted.
  reaches :
      (tr : Trace) (desired : ℕ) (o : Outcome)
      → get_or order.spec.replicas (pos 1) ≡ pos desired
      → (countb is_active (held tr) ≤ desired)
        ⊎ ((order.spec.refresh_policy ≡ RefreshPolicy.always)
            × (countb has_finalizer (held tr) ≡ 0))
      → desired + length (held tr) < 2147483648
      → (reconcile_tickets env order tr).0 ≡ some (ok o)
      → let tr' = calls (reconcile_tickets env order tr) in
        (countb is_active (held tr') ≡ desired) × (length (held tr') < 2147483648)
  reaches tr desired o wants policy small good =
      let (ts, shown, same) = lists tr in
      let size : length ts ≡ length (held tr) = same_length ts (held tr) same in
      let size' : length (held (listed tr)) ≡ length (held tr) = ap length (held-list tr) in
      let a = countb is_active ts in
      let seen : a ≡ countb is_active (held (listed tr)) = held-listed is_active ts tr same in
      let (fine, ends) = reconcile_tickets-balance ts tr o shown good in
      elim (dec_lt a desired) [
        | yes few ↦
            let run = balance_creates env order ts (listed tr) desired wants few (omega arith) in
            let (active, longer) =
              held-create_tickets env order held store (desired - a) (pos (length ts)) (listed tr)
                (rw (← run) fine) in
            rw (ends, run) (omega (arith, active, seen), omega (arith, longer, size'))
        | no enough ↦ elim (dec_lt desired a) [
          | no more ↦
              let exact : desired ≡ a = omega arith in
              let run =
                balance_stable env order ts (listed tr) (wants ∙ ap pos exact) (omega arith) in
              rw (ends, run) (sym seen ∙ sym exact, omega (arith, size'))
          | yes more ↦ elim policy [
            | inl le ↦ absurd (omega (arith, same is_active))
            | inr (always, free) ↦
                let (active, shorter) =
                  reaches_below ts tr desired wants always same free more (omega arith) fine in
                rw ends (active, omega (arith, shorter, size'))
          ]
        ]
      ]

  -- On a server that stores and lists the tickets of the order (`IsStore`), two runs of
  -- reconcileTickets in a row settle: if the first returns without an error, then as many active
  -- tickets are stored after it as the order wants, and the second lists the tickets, asks to be called
  -- again in five minutes, and makes no other call. Not more tickets are active at first than are
  -- wanted, or the policy is Always and no stored ticket has a finalizer yet, which would make its
  -- deletion wait; and the numbers fit int32.
  pub reconcile_tickets-settles :
      (tr : Trace) (desired : ℕ) (o : Outcome)
      → get_or order.spec.replicas (pos 1) ≡ pos desired
      → (countb is_active (held tr) ≤ desired)
        ⊎ ((order.spec.refresh_policy ≡ RefreshPolicy.always)
            × (countb has_finalizer (held tr) ≡ 0))
      → desired + length (held tr) < 2147483648
      → (reconcile_tickets env order tr).0 ≡ some (ok o)
      → let tr' = calls (reconcile_tickets env order tr) in
        (countb is_active (held tr') ≡ desired)
        × (reconcile_tickets env order tr' ≡ (
          some (ok five_minutes),
          list_tickets order.meta.namespace (owner_labels order) ∷ tr',
        ))
  reconcile_tickets-settles tr desired o wants policy small good =
      let tr' = calls (reconcile_tickets env order tr) in
      let (active, short) = reaches tr desired o wants policy small good in
      (active, reconcile_tickets-rests tr' (wants ∙ ap pos (sym active)) short)
