-- ===== src/OrderController/Create.antt =====
-- The tickets that reconcileTickets creates.
use korder.Prelude.{
  ℕ, zero, suc, ◌+◌, ◌-◌, ◌<◌, ◌≡◌, refl, ◌∙◌, true, none, some, List, [], ◌∷◌, ◌++◌, append_assoc,
  arith, length, countb, anyb, get_or, length-filterb, countb-le-length, inl, inr, length-append,
}
use korder.Prelude.Int.{ℤ, pos, pos_part, ◌+ℤ◌, ◌-ℤ◌, wrap32, wrap32-pos}
use korder.Prelude.Text.{Text, text_eq}
use korder.Api.Meta.{ObjectMeta}
use korder.Api.Ticket.{Ticket}
use korder.Api.Order.{Order}
use korder.Client.{
  Cluster, Error, already_exists, ok, err, Reply-cases, Call, Trace, list_tickets, calls, Outcome,
}
use korder.OrderController.Tickets.{
  owner_labels, owned_tickets, is_active, filter_active, len32, ticket_name, ticket_of,
  create_ticket, create_tickets,
}
use korder.OrderController.Balance.{balance, reconcile_tickets}

-- The names of the tickets that a run has asked to create, newest first.
abbrev pub created : Trace → List Text
created [] = []
created (Call.create_ticket t ∷ tr) = t.meta.name ∷ created tr
created (c ∷ tr) = created tr

-- The names for a number of rounds from an index on, the last one first.
abbrev pub fresh_names : Order → ℕ → ℕ → List Text
fresh_names order zero index = []
fresh_names order (suc rounds) index =
    fresh_names order rounds (suc index) ++ ticket_name order (pos index) ∷ []

-- Setting the owner of a ticket does not rename it.
abbrev pub KeepsName : Cluster → Type 0
KeepsName env =
    (owner m m' : ObjectMeta) → env.set_controller_reference owner m ≡ ok m' → m'.name ≡ m.name

step32 : (n : ℕ) → suc n < 2147483648 → wrap32 (pos n +ℤ pos 1) ≡ pos (suc n)
unfolding ◌+ℤ◌
step32 n h = ground (arith, wrap32-pos (suc n) h)

name-ticket_of :
    (order : Order) (index : ℤ) → (ticket_of order index).meta.name ≡ ticket_name order index
unfolding ticket_of
name-ticket_of order index = refl

module _ (env : Cluster) (order : Order) (keeps : KeepsName env) where
  created-create_ticket :
      (index : ℤ) (tr : Trace)
      → (create_ticket env order index tr).0 ≡ some none
      → created (create_ticket env order index tr).1 ≡ ticket_name order index ∷ created tr
  unfolding create_ticket
  created-create_ticket index tr h =
      let t = ticket_of order index in
      elim (Reply-cases (env.set_controller_reference order.meta t.meta)) [
        | inr (e, bad) ↦ absurd (ground arith)
        | inl (m, owned) ↦
            ground (arith, keeps order.meta t.meta m owned, name-ticket_of order index)
      ]

  created-create_tickets :
      (rounds index : ℕ) (tr : Trace)
      → index + rounds < 2147483648
      → (create_tickets env order rounds (pos index) tr).0 ≡ some none
      → created (create_tickets env order rounds (pos index) tr).1
        ≡ fresh_names order rounds index ++ created tr
  unfolding create_tickets
  created-create_tickets zero index tr small h = refl
  created-create_tickets (suc rounds) index tr small h =
      let tr' = (create_ticket env order (pos index) tr).1 in
      let names = fresh_names order rounds (suc index) in
      ground (
        arith,
        created-create_ticket (pos index) tr,
        step32 index (omega arith),
        created-create_tickets rounds (suc index) tr' (omega arith),
        append_assoc names (ticket_name order (pos index) ∷ []) (created tr),
      )

length-fresh_names :
    (order : Order) (rounds index : ℕ) → length (fresh_names order rounds index) ≡ rounds
length-fresh_names order zero index = refl
length-fresh_names order (suc rounds) index =
    length-append (fresh_names order rounds (suc index)) _
    ∙ omega (arith, length-fresh_names order rounds (suc index))

missing_rounds : (d a : ℕ) → a < d → d < 2147483648 → pos_part (wrap32 (pos d -ℤ pos a)) ≡ d - a
unfolding ◌-ℤ◌
missing_rounds d a h small = ground (arith, wrap32-pos (d - a) (omega arith))

pub len32-filter_active :
    (ts : List Ticket)
    → length ts < 2147483648
    → len32 (filter_active ts) ≡ pos (countb is_active ts)
unfolding filter_active
len32-filter_active ts h =
    rw (length-filterb is_active ts)
      (wrap32-pos (countb is_active ts) (omega (arith, countb-le-length is_active ts)))

pub balance_creates :
    (env : Cluster) (order : Order) (ts : List Ticket) (tr : Trace) (desired : ℕ)
    → get_or order.spec.replicas (pos 1) ≡ pos desired
    → countb is_active ts < desired
    → desired + length ts < 2147483648
    → balance env order ts tr
      ≡ create_tickets env order (desired - countb is_active ts) (pos (length ts)) tr
unfolding balance
balance_creates env order ts tr desired wants few small =
    let a = countb is_active ts in
    ground (
      arith,
      len32-filter_active ts (omega arith),
      wrap32-pos (length ts) (omega arith),
      missing_rounds desired a few (omega arith),
    )

-- If fewer tickets are active than the order wants, and reconcileTickets reports no error, then it
-- has asked for exactly the missing ones: their names continue from the number of tickets listed,
-- and as many are asked for as the order wants less the active ones. The numbers fit int32.
pub reconcile_tickets-fills :
    (env : Cluster) (order : Order) (ts : List Ticket) (tr : Trace) (desired : ℕ) (o : Outcome)
    → KeepsName env
    → env.tickets_at tr order.meta.namespace (owner_labels order) ≡ ok ts
    → get_or order.spec.replicas (pos 1) ≡ pos desired
    → countb is_active ts < desired
    → desired + length ts < 2147483648
    → (reconcile_tickets env order tr).0 ≡ some (ok o)
    → created (calls (reconcile_tickets env order tr))
      ≡ fresh_names order (desired - countb is_active ts) (length ts) ++ created tr
unfolding reconcile_tickets owned_tickets
reconcile_tickets-fills env order ts tr desired o keeps listed wants few small good =
    let tr' = list_tickets order.meta.namespace (owner_labels order) ∷ tr in
    let a = countb is_active ts in
    ground (
      arith,
      balance_creates env order ts tr' desired wants few small,
      created-create_tickets env order keeps (desired - a) (length ts) tr' (omega arith),
    )

create_ticket_refused :
    (env : Cluster) (order : Order) (index : ℤ) (tr : Trace) (m : ObjectMeta) (e : Error)
    → env.set_controller_reference order.meta (ticket_of order index).meta ≡ ok m
    → let t : Ticket = record (ticket_of order index) { meta = m } in
      env.write_error tr (Call.create_ticket t) ≡ some e
      → create_ticket env order index tr ≡ (some (some e), Call.create_ticket t ∷ tr)
unfolding create_ticket
create_ticket_refused env order index tr m e owned refused = ground arith

create_tickets_refused :
    (env : Cluster) (order : Order) (rounds : ℕ) (index : ℤ) (tr tr' : Trace) (e : Error)
    → 0 < rounds
    → create_ticket env order index tr ≡ (some (some e), tr')
    → create_tickets env order rounds index tr ≡ (some (some e), tr')
unfolding create_tickets
create_tickets_refused env order zero index tr tr' e h refused = elim h [ ]
create_tickets_refused env order (suc rounds) index tr tr' e h refused = ground arith

-- If a listed ticket has the name that the next one gets,
-- because one with a smaller index is gone, and the server refuses a name that is taken, then
-- reconcileTickets fails with the server's error, and that one name is all that it asked to create,
-- although tickets are missing. The numbers fit int32.
pub reconcile_tickets-collides :
    (env : Cluster) (order : Order) (ts : List Ticket) (tr : Trace) (desired : ℕ) (m : ObjectMeta)
    → env.tickets_at tr order.meta.namespace (owner_labels order) ≡ ok ts
    → get_or order.spec.replicas (pos 1) ≡ pos desired
    → countb is_active ts < desired
    → desired + length ts < 2147483648
    → anyb (λ u. text_eq u.meta.name (ticket_name order (pos (length ts)))) ts ≡ true
    → env.set_controller_reference order.meta (ticket_of order (pos (length ts))).meta ≡ ok m
    → m.name ≡ ticket_name order (pos (length ts))
    → ((tr' : Trace) (t : Ticket)
        → anyb (λ u. text_eq u.meta.name t.meta.name) ts ≡ true
        → env.write_error tr' (Call.create_ticket t) ≡ some (already_exists t.meta.name))
    → ((reconcile_tickets env order tr).0
        ≡ some (err (already_exists (ticket_name order (pos (length ts))))))
      × (created (calls (reconcile_tickets env order tr))
          ≡ ticket_name order (pos (length ts)) ∷ created tr)
unfolding reconcile_tickets owned_tickets
reconcile_tickets-collides env order ts tr desired m listed wants few small taken owned named
      refuses =
    let tr' = list_tickets order.meta.namespace (owner_labels order) ∷ tr in
    let t' : Ticket = record (ticket_of order (pos (length ts))) { meta = m } in
    let e = already_exists m.name in
    let first =
      create_ticket_refused env order (pos (length ts)) tr' m e owned
        (refuses tr' t' (rw named taken)) in
    let all =
      create_tickets_refused env order (desired - countb is_active ts) (pos (length ts)) tr'
        (Call.create_ticket t' ∷ tr') e (omega arith) first in
    (
      ground (arith, balance_creates env order ts tr' desired wants few small),
      ground (arith, balance_creates env order ts tr' desired wants few small),
    )
