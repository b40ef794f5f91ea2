-- ===== src/Metrics/Ways.antt =====
-- The ways in which createTicket of internal/controller/order_controller.go ends, with its reports to
-- internal/metrics/metrics.go.
use korder.Prelude.{
  ℕ, ◌+◌, ◌≡◌, refl, ◌⊎◌, inl, inr, Option-cases, Option, none, some, [], ◌∷◌, arith,
}
use korder.Prelude.Int.{ℤ}
use korder.Prelude.Text.{codes, text_eq_refl}
use korder.Api.Order.{Order}
use korder.Client.{Cluster, Trace, Error, Call, Reply-cases}
use korder.OrderController.Tickets.{ticket_of, create_ticket}
use korder.Metrics.Prometheus.{Prometheus, IsDocumented}
use korder.Metrics.Record.{inc_tickets_total, inc_reconciliation_errors}
use korder.Metrics.Requests.{Request, perform, perform_all, Event, tells, event_name, event_values}
use korder.Metrics.Counts.{perform_all-shown}
use korder.Metrics.Created.{create_reported}

abbrev pub created : Order → Event
created order = Event.ticket_created order.meta.namespace (codes "Pending")

abbrev pub failed : Event
failed = Event.reconciliation_failed (codes "order") (codes "ticket_creation_failed")

-- From a store to the one after the reports, n more tickets and m more failed creations show.
abbrev pub Grows : (p : Prometheus) → Order → p.Store → Option p.Store → ℕ → ℕ → Type 0
Grows p order store after n m =
    (s : p.Store) × (after ≡ some s)
    × (p.total s (event_name (created order)) (event_values (created order))
        ≡ p.total store (event_name (created order)) (event_values (created order)) + n)
    × (p.total s (event_name failed) (event_values failed)
        ≡ p.total store (event_name failed) (event_values failed) + m)

module _ (p : Prometheus) (documented : IsDocumented p) (env : Cluster) (order : Order) where
  created-Grows :
      (store : p.Store)
      → Grows p order store (inc_tickets_total p order.meta.namespace (codes "Pending") store) 1 0
  unfolding perform_all perform tells
  created-Grows store =
      let r = Request.ticket_created order.meta.namespace (codes "Pending") in
      let (s, returns, counts) = perform_all-shown p documented (r ∷ []) store in
      (
        s,
        ground (arith, returns),
        ground (
          arith,
          counts (created order),
          text_eq_refl order.meta.namespace,
          text_eq_refl (codes "Pending"),
        ),
        counts failed,
      )

  failed-Grows :
      (store : p.Store)
      → Grows p order store
          (inc_reconciliation_errors p (codes "order") (codes "ticket_creation_failed") store)
          0
          1
  unfolding perform_all perform tells
  failed-Grows store =
      let r = Request.reconciliation_failed (codes "order") (codes "ticket_creation_failed") in
      let (s, returns, counts) = perform_all-shown p documented (r ∷ []) store in
      (
        s,
        ground (arith, returns),
        counts (created order),
        ground (
          arith,
          counts failed,
          text_eq_refl (codes "order"),
          text_eq_refl (codes "ticket_creation_failed"),
        ),
      )

  -- The three ways in which createTicket ends.
  abbrev pub Endings : ℤ → Trace → p.Store → Type 0
  Endings index tr store =
      let r = create_reported p env order index tr store in
      ((e : Error) × (create_ticket env order index tr ≡ (some (some e), tr))
        × (r.error ≡ some e)
        × (r.calls ≡ tr)
        × (r.store ≡ some store))
      ⊎ (((call : Call) × (e : Error) × (create_ticket env order index tr
              ≡ (some (some e), call ∷ tr))
            × (r.error ≡ some e)
            × (r.calls ≡ call ∷ tr)
            × Grows p order store r.store 0 1)
          ⊎ ((call : Call) × (create_ticket env order index tr ≡ (some none, call ∷ tr))
              × (r.error ≡ none)
              × (r.calls ≡ call ∷ tr)
              × Grows p order store r.store 1 0))

  pub create_reported_cases : (index : ℤ) (tr : Trace) (store : p.Store) → Endings index tr store
  unfolding create_reported create_ticket
  create_reported_cases index tr store =
      let t = ticket_of order index in
      elim (Reply-cases (env.set_controller_reference order.meta t.meta)) [
        | inr (e, refuses) ↦ inl (
          e,
          rw (create_ticket, refuses) refl,
          rw (create_reported, refuses) refl,
          rw (create_reported, refuses) refl,
          rw (create_reported, refuses) refl,
        )
        | inl (m, owned) ↦
            let call = Call.create_ticket (record t { meta = m }) in
            elim (Option-cases (env.write_error tr call)) [
              | inr (e, fails) ↦ inr (
                  inl (
                    call,
                    e,
                    rw (create_ticket, owned, fails) refl,
                    rw (create_reported, owned, fails) refl,
                    rw (create_reported, owned, fails) refl,
                    rw (create_reported, owned, fails) (failed-Grows store),
                  ))
              | inl passes ↦ inr (
                  inr (
                    call,
                    rw (create_ticket, owned, passes) refl,
                    rw (create_reported, owned, passes) refl,
                    rw (create_reported, owned, passes) refl,
                    rw (create_reported, owned, passes) (created-Grows store),
                  ))
            ]
      ]
