-- ===== src/Converge/Shrink.antt =====
-- What is held after the loop of internal/controller/order_controller.go that deletes from the end.
use mathlib.Core.List.{reverse, reverse-append}
use korder.Prelude.{
  ◌≤◌, ◌≡◌, refl, ◌∙◌, sym, ap, none, some, List, [], ◌∷◌, ◌++◌, ◌&&◌, arith, length, countb,
  filterb, not, length-filterb, countb-le-length, countb-append, inl, inr, Option-cases, Bool,
}
use korder.Prelude.Text.{Text}
use korder.Api.Ticket.{Ticket}
use korder.Api.Order.{Order}
use korder.Client.{Cluster, Trace, delete_ticket}
use korder.OrderController.Tickets.{is_active, filter_active}
use korder.OrderController.Balance.{delete_last}
use korder.OrderController.Remove.{length-reverse}
use korder.Converge.Store.{IsStore, is_foreign, SameTickets, has_name, has_finalizer}
use korder.Converge.Names.{is_clear, without, countb-filterb, countb-without, countb-clear}

countb-filterb-le : (p q : Ticket → Bool) (ts : List Ticket) → countb p (filterb q ts) ≤ countb p ts
countb-filterb-le p q [] = omega arith
countb-filterb-le p q (t ∷ ts) = ground (arith, countb-filterb-le p q ts)

countb-both-le :
    (p q : Ticket → Bool) (ts : List Ticket) → countb (λ t. p t && q t) ts ≤ countb q ts
countb-both-le p q [] = omega arith
countb-both-le p q (t ∷ ts) = ground (arith, countb-both-le p q ts)

countb-reverse : (p : Ticket → Bool) (ts : List Ticket) → countb p (reverse ts) ≡ countb p ts
countb-reverse p [] = refl
countb-reverse p (t ∷ ts) =
    rw (reverse-append (t ∷ []) ts)
      (countb-append p (reverse ts) (t ∷ []) ∙ ground (arith, countb-reverse p ts))

length-without : (ts held : List Ticket) → length (without ts held) ≤ length held
unfolding without
length-without [] held = omega arith
length-without (t ∷ ts) held =
    let q : Ticket → Bool = λ u. not (has_name t.meta.name u) in
    omega
      (arith, length-without ts (filterb q held), length-filterb q held, countb-le-length q held)

module _ (env : Cluster) (order : Order) (held : Trace → List Ticket)
    (store : IsStore env order held) where
  open store use {held-delete}

  held-delete_last :
      (rs rest : List Ticket) (tr : Trace)
      → countb (is_foreign order) rs ≡ 0
      → countb has_finalizer (held tr) ≡ 0
      → (delete_last env (length rs) (rs ++ rest) tr).0 ≡ some none
      → held (delete_last env (length rs) (rs ++ rest) tr).1 ≡ without rs (held tr)
  unfolding delete_last without
  held-delete_last [] rest tr own free good = refl
  held-delete_last (r ∷ rs) rest tr own free good =
      elim (Option-cases (env.write_error tr (delete_ticket r))) [
        | inr (e, bad) ↦ absurd (ground arith)
        | inl works ↦
            let named : countb (λ u. has_name r.meta.name u && has_finalizer u) (held tr) ≡ 0 =
              omega (arith, countb-both-le (has_name r.meta.name) has_finalizer (held tr), free) in
            let removes = held-delete tr r (ground arith) named works in
            let still : countb has_finalizer (held (delete_ticket r ∷ tr)) ≡ 0 = rw removes (
              omega (
                arith,
                countb-filterb-le has_finalizer (λ u. not (has_name r.meta.name u)) (held tr),
                free,
              )) in
            ground
              (arith, removes, held-delete_last rs rest (delete_ticket r ∷ tr) (ground arith) still)
      ]

  -- Of the active tickets that are listed as kept and removed, as many are held afterwards as are kept.
  pub held-removed :
      (ts kept removed : List Ticket) (tr : Trace)
      → SameTickets ts (held tr)
      → countb (is_foreign order) (held tr) ≡ 0
      → countb has_finalizer (held tr) ≡ 0
      → ((name : Text) → countb (has_name name) (held tr) ≤ 1)
      → filter_active ts ≡ kept ++ removed
      → (delete_last env (length removed) (reverse (kept ++ removed)) tr).0 ≡ some none
      → let tr' = (delete_last env (length removed) (reverse (kept ++ removed)) tr).1 in
        (countb is_active (held tr') ≡ length kept) × (length (held tr') ≤ length (held tr))
  unfolding filter_active
  held-removed ts kept removed tr same ours free once active good =
      let foreign = is_foreign order in
      let own : countb foreign (reverse removed) ≡ 0 = omega (
        arith,
        countb-reverse foreign removed,
        countb-append foreign kept removed,
        ap (countb foreign) active,
        countb-filterb-le foreign is_active ts,
        same foreign,
        ours,
      ) in
      let run : delete_last env (length removed) (reverse (kept ++ removed)) tr
          ≡ delete_last env (length (reverse removed)) (reverse removed ++ reverse kept) tr =
        rw (reverse-append kept removed, length-reverse removed) refl in
      let after : held (delete_last env (length removed) (reverse (kept ++ removed)) tr).1
          ≡ without (reverse removed) (held tr) =
        rw run (held-delete_last (reverse removed) (reverse kept) tr own free (rw (← run) good)) in
      let names : (name : Text) → countb (has_name name) (kept ++ removed) ≤ 1 = λ name.
        rw (← active) (
          omega (
            arith,
            countb-filterb-le (has_name name) is_active ts,
            same (has_name name),
            once name,
          )) in
      let clear = is_clear (reverse removed) in
      let counts : countb is_active (without (reverse removed) (held tr)) ≡ length kept =
        countb-without is_active (reverse removed) (held tr)
        ∙ sym (same (λ u. is_active u && clear u))
        ∙ sym (countb-filterb clear is_active ts)
        ∙ ap (countb clear) active
        ∙ countb-clear kept removed names in
      rw after (counts, length-without (reverse removed) (held tr))
