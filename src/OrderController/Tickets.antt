-- ===== src/OrderController/Tickets.antt =====
-- internal/controller/order_controller.go: The tickets of an order: getOwnedTickets,
-- filterActiveTickets, createTicket.
use korder.Prelude.{
  ℕ, zero, suc, Bool, Option, none, some, List, [], ◌∷◌, ◌++◌, length, filterb, not,
}
use korder.Prelude.Int.{ℤ, pos, ◌+ℤ◌, wrap32}
use korder.Prelude.Text.{Text, codes, insert}
use korder.Prelude.Decimal.{print_ℤ}
use korder.Api.Meta.{Labels}
use korder.Api.Ticket.{Ticket, TicketPhase, TicketStatus, is_expired}
use korder.Api.Order.{Order}
use korder.Client.{Cluster, Error, Reply, ok, err, Call, M, pure, ◌>>=◌, write, find_tickets}

abbrev pub order_finalizer : Text
order_finalizer = codes "korder.dev/order-finalizer"

-- The label by which an order finds its tickets.
abbrev pub owner_labels : Order → Labels
owner_labels order = (codes "korder.dev/order", order.meta.name) ∷ []

-- getOwnedTickets
unfoldable pub owned_tickets : Cluster → Order → M (Reply (List Ticket))
owned_tickets env order = find_tickets env order.meta.namespace (owner_labels order)

abbrev pub is_active : Ticket → Bool
is_active t = not (is_expired t.status.phase)

-- filterActiveTickets
unfoldable pub filter_active : List Ticket → List Ticket
filter_active = filterb is_active

-- int32(len(xs))
abbrev pub len32 {ℓ} : {A : Type ℓ} → List A → ℤ
len32 xs = wrap32 (pos (length xs))

-- The copy of the template's labels.
copy_labels : Labels → Labels → Labels
copy_labels [] into = into
copy_labels ((k, v) ∷ ls) into = copy_labels ls (insert k v into)

unfoldable pub ticket_name : Order → ℤ → Text
ticket_name order index = order.meta.name ++ b'-' ∷ print_ℤ index

new_status : TicketStatus
new_status = record {
  phase = TicketPhase.new;
  activation_time = none;
  expiration_time = none;
  claimed_time = none;
  utilization_rate = none;
  node_name = none;
  guardian_pod = none;
  claimed_pod = none;
  message = none;
  reason = none;
  observed_generation = none;
  conditions = [];
}

-- The ticket that createTicket builds, before the owner reference.
unfoldable pub ticket_of : Order → ℤ → Ticket
unfolding copy_labels new_status
ticket_of order index = record {
  meta = record {
    name = ticket_name order index;
    namespace = order.meta.namespace;
    uid = [];
    generation = pos 0;
    deletion_timestamp = none;
    finalizers = [];
    labels = insert (codes "korder.dev/order-uid") order.meta.uid (
        insert (codes "korder.dev/order") order.meta.name
          (copy_labels order.spec.template.meta.labels []));
    annotations = [];
    owner_references = [];
  };
  spec = order.spec.template.spec;
  status = new_status;
}

-- createTicket
unfoldable pub create_ticket : Cluster → Order → ℤ → M (Option Error)
create_ticket env order index =
    let t = ticket_of order index in
    elim (env.set_controller_reference order.meta t.meta) [
      | err e ↦ pure (some e)
      | ok m ↦ write env (Call.create_ticket (record t { meta = m }))
    ]

-- The loop that creates the missing tickets, from the index on.
unfoldable pub create_tickets : Cluster → Order → ℕ → ℤ → M (Option Error)
create_tickets env order zero index = pure none
create_tickets env order (suc rounds) index = do
  failure ← create_ticket env order index
  elim failure [
    | some e ↦ pure (some e)
    | none ↦ create_tickets env order rounds (wrap32 (index +ℤ pos 1))
  ]
