-- ===== src/Converge/Grow.antt =====
-- What is held after the loop of internal/controller/order_controller.go that creates tickets.
use korder.Prelude.{
  ℕ, zero, suc, ◌+◌, ◌≡◌, refl, true, none, some, List, arith, length, countb, inl, inr,
  Option-cases,
}
use korder.Prelude.Int.{ℤ, pos, ◌+ℤ◌, wrap32}
use korder.Api.Ticket.{Ticket}
use korder.Api.Order.{Order}
use korder.Client.{Cluster, Trace, Call, Reply-cases}
use korder.OrderController.Tickets.{is_active, ticket_of, create_ticket, create_tickets}
use korder.Converge.Store.{IsStore}

new_is_active :
    (order : Order) (index : ℤ) (u : Ticket)
    → u.status ≡ (ticket_of order index).status
    → is_active u ≡ true
unfolding ticket_of
new_is_active order index u fresh = rw fresh refl

module _ (env : Cluster) (order : Order) (held : Trace → List Ticket)
    (store : IsStore env order held) where
  open store use {held-create}

  held-create_ticket :
      (index : ℤ) (tr : Trace)
      → (create_ticket env order index tr).0 ≡ some none
      → let tr' = (create_ticket env order index tr).1 in
        (countb is_active (held tr') ≡ suc (countb is_active (held tr)))
        × (length (held tr') ≡ suc (length (held tr)))
  unfolding create_ticket
  held-create_ticket index tr good =
      let t = ticket_of order index in
      elim (Reply-cases (env.set_controller_reference order.meta t.meta)) [
        | inr (e, bad) ↦ absurd (ground arith)
        | inl (m, owned) ↦
            let new : Ticket = record t { meta = m } in
            elim (Option-cases (env.write_error tr (Call.create_ticket new))) [
              | inr (e, bad) ↦ absurd (ground arith)
              | inl works ↦
                  let (u, adds, fresh) = held-create tr index m owned works in
                  ground (arith, adds, new_is_active order index u fresh)
            ]
      ]

  pub held-create_tickets :
      (rounds : ℕ) (index : ℤ) (tr : Trace)
      → (create_tickets env order rounds index tr).0 ≡ some none
      → let tr' = (create_tickets env order rounds index tr).1 in
        (countb is_active (held tr') ≡ countb is_active (held tr) + rounds)
        × (length (held tr') ≡ length (held tr) + rounds)
  unfolding create_tickets
  held-create_tickets zero index tr good = (omega arith, omega arith)
  held-create_tickets (suc rounds) index tr good =
      let tr' = (create_ticket env order index tr).1 in
      ground (
        arith,
        held-create_ticket index tr,
        held-create_tickets rounds (wrap32 (index +ℤ pos 1)) tr',
      )
