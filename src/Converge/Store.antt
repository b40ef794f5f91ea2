-- ===== src/Converge/Store.antt =====
-- A server that stores the tickets of an order, as internal/controller/order_controller.go sees it.
use korder.Prelude.{false, ◌&&◌, is_empty, ◌≡◌, ◌≤◌, Bool, none, List, ◌∷◌, countb, filterb, not}
use korder.Prelude.Int.{ℤ}
use korder.Api.Meta.{ObjectMeta}
use korder.Prelude.Text.{Text, text_eq}
use korder.Api.Ticket.{Ticket}
use korder.Api.Order.{Order}
use korder.Client.{Cluster, Trace, ok, create_ticket, delete_ticket, list_tickets}
use korder.OrderController.Tickets.{owner_labels, ticket_of}

abbrev pub has_name : Text → Ticket → Bool
has_name name t = text_eq t.meta.name name

-- The same tickets in any order: as many of them pass each test.
abbrev pub SameTickets : List Ticket → List Ticket → Type 0
SameTickets ts us = (p : Ticket → Bool) → countb p ts ≡ countb p us

-- Whether a ticket is in another namespace than the order.
abbrev pub is_foreign : Order → Ticket → Bool
is_foreign order t = not (text_eq t.meta.namespace order.meta.namespace)

-- Whether the finalizers of a ticket make its deletion wait for their removal.
abbrev pub has_finalizer : Ticket → Bool
has_finalizer t = not (is_empty t.meta.finalizers)

-- What is held for the order after the calls. An accepted creation of a ticket of the order adds a
-- ticket with its status, whose specification the webhook of tickets may have completed and whose
-- metadata the server fills in. An accepted deletion in the order's namespace removes the ticket of
-- that name, if the one that is held has no finalizer; of a deletion that waits for one nothing is
-- asked. A listing changes nothing and shows all that is held, in any order, as a cache that is up to
-- date does. The tickets held are in the namespace of the order, and a name is held once.
pub record IsStore (env : Cluster) (order : Order) (held : Trace → List Ticket) : Type 0 where
  pub held-create :
      (tr : Trace) (index : ℤ) (m : ObjectMeta)
      → env.set_controller_reference order.meta (ticket_of order index).meta ≡ ok m
      → let t : Ticket = record (ticket_of order index) { meta = m } in
        env.write_error tr (create_ticket t) ≡ none
        → (u : Ticket) × (held (create_ticket t ∷ tr) ≡ u ∷ held tr) × (u.status ≡ t.status)
  pub held-delete :
      (tr : Trace) (t : Ticket)
      → is_foreign order t ≡ false
      → countb (λ u. has_name t.meta.name u && has_finalizer u) (held tr) ≡ 0
      → env.write_error tr (delete_ticket t) ≡ none
      → held (delete_ticket t ∷ tr) ≡ filterb (λ u. not (has_name t.meta.name u)) (held tr)
  pub held-list :
      (tr : Trace) → held (list_tickets order.meta.namespace (owner_labels order) ∷ tr) ≡ held tr
  pub lists :
      (tr : Trace)
      → (ts : List Ticket) × (env.tickets_at tr order.meta.namespace (owner_labels order) ≡ ok ts)
        × SameTickets ts (held tr)
  pub none_foreign : (tr : Trace) → countb (is_foreign order) (held tr) ≡ 0
  pub names_once : (tr : Trace) (name : Text) → countb (has_name name) (held tr) ≤ 1
