-- ===== src/Metrics/Timed.antt =====
-- The deferred function by which each Reconcile of internal/controller reports its duration to
-- internal/metrics/metrics.go, around the part of Reconcile that follows it.
use korder.Prelude.{ℕ, ◌+◌, ◌≡◌, refl, Option, some, [], ◌∷◌, arith, if◌then◌else◌}
use korder.Prelude.Int.{◌-ℤ◌}
use korder.Prelude.Text.{Text, codes}
use korder.Api.Meta.{Key}
use korder.Client.{Cluster, Trace, read_clock, M, Return}
use korder.OrderController.Reconcile as order
use korder.TicketController.Reconcile as ticket
use korder.QuotaController.Reconcile as quota
use korder.Metrics.Prometheus.{Prometheus, IsDocumented}
use korder.Metrics.Record.{observe_reconciliation_duration}
use korder.Metrics.Requests.{Request, perform, perform_all, Event, tells, event_name, event_values}
use korder.Metrics.Counts.{perform_all-shown}

-- What a reconciliation leaves: its result, the calls that it made, and the metrics, `none` if
-- reporting panics. A deferred function runs when the method returns and when it panics.
pub record Timed (p : Prometheus) : Type 0 where
  pub result : Option Return
  pub calls : Trace
  pub store : Option p.Store

module _ (p : Prometheus) (env : Cluster) where
  -- The first statements of Reconcile: the start time and the deferred report.
  unfoldable pub timed : Text → M Return → Trace → p.Store → Timed p
  timed controller body tr store =
      let start = env.now tr in
      let (result, calls) = body (read_clock ∷ tr) in
      let duration = p.seconds (env.now calls -ℤ start) in
      record {
        result = result;
        calls = read_clock ∷ calls;
        store = observe_reconciliation_duration p controller (codes "success") duration store;
      }

  -- TicketReconciler.Reconcile
  unfoldable pub ticket_reconcile : ℕ → Key → Trace → p.Store → Timed p
  ticket_reconcile fuel key = timed (codes "ticket") (ticket.reconcile env fuel key)

  -- QuotaReconciler.Reconcile
  unfoldable pub quota_reconcile : Key → Trace → p.Store → Timed p
  quota_reconcile key = timed (codes "quota") (quota.reconcile env key)

  -- OrderReconciler.Reconcile
  unfoldable pub order_reconcile : Key → Trace → p.Store → Timed p
  order_reconcile key = timed (codes "order") (order.reconcile env key)

-- The result is that of the body behind the start time, and the deferred report counts one success
-- of the controller and nothing else.
abbrev pub Succeeds :
    (p : Prometheus) → Cluster → Text → M Return → Trace → p.Store → Timed p → Type 0
Succeeds p env controller body tr store t =
    (t.result ≡ (body (read_clock ∷ tr)).0)
    × ((s' : p.Store) × (t.store ≡ some s')
        × ((e : Event)
            → p.total s' (event_name e) (event_values e)
              ≡ p.total store (event_name e) (event_values e)
                + (if tells e (Request.reconciled controller (codes "success") []) then 1 else 0)))

tells-duration :
    (e : Event) (c r x y : Text)
    → tells e (Request.reconciled c r x) ≡ tells e (Request.reconciled c r y)
unfolding tells
tells-duration e c r x y = grind arith

module _ (p : Prometheus) (documented : IsDocumented p) (env : Cluster) where
  timed-Succeeds :
      (c : Text) (body : M Return) (tr : Trace) (store : p.Store)
      → Succeeds p env c body tr store (timed p env c body tr store)
  unfolding timed perform_all perform
  timed-Succeeds c body tr store =
      let d = p.seconds (env.now (body (read_clock ∷ tr)).1 -ℤ env.now tr) in
      let r = Request.reconciled c (codes "success") d in
      let (s', returns, counts) = perform_all-shown p documented (r ∷ []) store in
      (
        refl,
        (
          s',
          ground (arith, returns),
          λ e. ground (arith, counts e, tells-duration e c (codes "success") d []),
        ),
      )

  -- Whatever the rest of each of the three reconcilers returns, an error included, is its result, and
  -- the report of its duration counts one success of that controller and no other event, so no error
  -- of a reconciler shows among the durations. Prometheus is assumed to do what its documentation
  -- says (`IsDocumented`).
  pub reconcile-Succeeds :
      (fuel : ℕ) (key : Key) (tr : Trace) (store : p.Store)
      → Succeeds p env
          (codes "order")
          (order.reconcile env key)
          tr
          store
          (order_reconcile p env key tr store)
        × Succeeds p env
            (codes "ticket")
            (ticket.reconcile env fuel key)
            tr
            store
            (ticket_reconcile p env fuel key tr store)
        × Succeeds p env
            (codes "quota")
            (quota.reconcile env key)
            tr
            store
            (quota_reconcile p env key tr store)
  unfolding order_reconcile ticket_reconcile quota_reconcile
  reconcile-Succeeds fuel key tr store =
      (timed-Succeeds _ _ tr store, timed-Succeeds _ _ tr store, timed-Succeeds _ _ tr store)
