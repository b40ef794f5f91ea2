-- ===== src/Metrics/Created.antt =====
-- createTicket of internal/controller/order_controller.go together with what it reports to
-- internal/metrics/metrics.go, and the loop of reconcileTickets over it.
use korder.Prelude.{ℕ, zero, suc, Option, none, some, ◌∷◌}
use korder.Prelude.Int.{ℤ, pos, ◌+ℤ◌, wrap32}
use korder.Prelude.Text.{codes}
use korder.Api.Order.{Order}
use korder.Client.{Cluster, Trace, Error, Call, ok, err}
use korder.OrderController.Tickets.{ticket_of}
use korder.Metrics.Prometheus.{Prometheus}
use korder.Metrics.Record.{inc_tickets_total, inc_reconciliation_errors}

-- A method's error, the calls after it, and the metrics, `none` where a report panics.
pub record Reported (p : Prometheus) : Type 0 where
  pub error : Option Error
  pub calls : Trace
  pub store : Option p.Store

module _ (p : Prometheus) (env : Cluster) (order : Order) where
  -- createTicket
  unfoldable pub create_reported : ℤ → Trace → p.Store → Reported p
  create_reported index tr store =
      let t = ticket_of order index in
      elim (env.set_controller_reference order.meta t.meta) [
        | err e ↦ record { error = some e; calls = tr; store = some store }
        | ok m ↦
            let call = Call.create_ticket (record t { meta = m }) in
            elim (env.write_error tr call) [
              | some e ↦ record {
                error = some e;
                calls = call ∷ tr;
                store =
                    inc_reconciliation_errors p (codes "order") (codes "ticket_creation_failed")
                      store;
              }
              | none ↦ record {
                error = none;
                calls = call ∷ tr;
                store = inc_tickets_total p order.meta.namespace (codes "Pending") store;
              }
            ]
      ]

  -- The loop that creates the missing tickets; it goes on where neither the creation nor a report
  -- fails.
  unfoldable pub create_all_reported : ℕ → ℤ → Trace → p.Store → Reported p
  create_all_reported zero index tr store = record { error = none; calls = tr; store = some store }
  create_all_reported (suc rounds) index tr store =
      let first = create_reported index tr store in
      elim first.store [
        | none ↦ first
        | some s ↦ elim first.error [
          | some e ↦ first
          | none ↦ create_all_reported rounds (wrap32 (index +ℤ pos 1)) first.calls s
        ]
      ]
