-- ===== src/Metrics/Counts.antt =====
-- What the counters and histograms of internal/metrics/metrics.go show after any calls.
use korder.Prelude.{
  ℕ, suc, ◌+◌, ◌≡◌, refl, false, some, List, [], ◌∷◌, arith, if◌then◌else◌, countb,
}
use korder.Api.Meta.{Float64}
use korder.Metrics.Vectors.{
  orders_total, orders_active, tickets_total, tickets_active, guardian_pods_total, quota_usage,
  quota_limits, reserved_resources, claimed_resources, reconciliation_duration, webhook_duration,
  reconciliation_errors, webhook_errors,
}
use korder.Metrics.Prometheus.{Prometheus, IsDocumented}
use korder.Prelude.Text.{text_eq}
use korder.Metrics.Record.{
  on_series, inc_orders_total, set_orders_active, inc_tickets_total, set_tickets_active,
  inc_guardian_pods_total, set_quota_usage, set_quota_limits, set_reserved_resources,
  set_claimed_resources, observe_reconciliation_duration, observe_webhook_duration,
  inc_reconciliation_errors, inc_webhook_errors,
}
use korder.Metrics.Series.{vector_of, values_of, length-values_of, told-tells, gauge-names}
use korder.Metrics.Requests.{Request, perform, perform_all, Event, event_name, event_values, tells}

module _ (p : Prometheus) (documented : IsDocumented p) where
  open documented use {labelled_count, total-inc, total-observe, total-set}

  abbrev pub shown : p.Store → Event → ℕ
  shown s e = p.total s (event_name e) (event_values e)

  -- What a request does to the store where its series exists.
  abbrev acted : Request → p.Store → p.Store
  acted (Request.order_created a b) = p.inc orders_total (a ∷ b ∷ [])
  acted (Request.ticket_created a b) = p.inc tickets_total (a ∷ b ∷ [])
  acted (Request.reconciliation_failed a b) = p.inc reconciliation_errors (a ∷ b ∷ [])
  acted (Request.guardian_created a) = p.inc guardian_pods_total (a ∷ [])
  acted (Request.webhook_failed a b c) = p.inc webhook_errors (a ∷ b ∷ c ∷ [])
  acted (Request.orders_active a b x) = p.set orders_active (a ∷ b ∷ []) x
  acted (Request.tickets_active a b x) = p.set tickets_active (a ∷ b ∷ []) x
  acted (Request.quota_usage a b x) = p.set quota_usage (a ∷ b ∷ []) x
  acted (Request.quota_limits a b x) = p.set quota_limits (a ∷ b ∷ []) x
  acted (Request.reserved a b c x) = p.set reserved_resources (a ∷ b ∷ c ∷ []) x
  acted (Request.claimed a b c x) = p.set claimed_resources (a ∷ b ∷ c ∷ []) x
  acted (Request.reconciled a b x) = p.observe reconciliation_duration (a ∷ b ∷ []) x
  acted (Request.reviewed a b c x) = p.observe webhook_duration (a ∷ b ∷ c ∷ []) x

  on_series-some :
      (r : Request) (act : p.Store → p.Store) (s : p.Store)
      → on_series p (vector_of r) (values_of r) act s ≡ some (act s)
  on_series-some r act s = rw (labelled_count (vector_of r) (values_of r) (length-values_of r)) refl

  perform_lem : (r : Request) (s : p.Store) → perform p r s ≡ some (acted r s)
  unfolding perform inc_orders_total inc_tickets_total inc_reconciliation_errors
      inc_guardian_pods_total inc_webhook_errors set_orders_active set_tickets_active
      set_quota_usage set_quota_limits set_reserved_resources set_claimed_resources
      observe_reconciliation_duration observe_webhook_duration orders_total tickets_total
      reconciliation_errors guardian_pods_total webhook_errors orders_active tickets_active
      quota_usage quota_limits reserved_resources claimed_resources reconciliation_duration
      webhook_duration
  perform_lem (Request.order_created a b) s =
      on_series-some (Request.order_created a b) (p.inc orders_total (a ∷ b ∷ [])) s
  perform_lem (Request.ticket_created a b) s =
      on_series-some (Request.ticket_created a b) (p.inc tickets_total (a ∷ b ∷ [])) s
  perform_lem (Request.reconciliation_failed a b) s =
      on_series-some (Request.reconciliation_failed a b) (p.inc reconciliation_errors (a ∷ b ∷ []))
        s
  perform_lem (Request.guardian_created a) s =
      on_series-some (Request.guardian_created a) (p.inc guardian_pods_total (a ∷ [])) s
  perform_lem (Request.webhook_failed a b c) s =
      on_series-some (Request.webhook_failed a b c) (p.inc webhook_errors (a ∷ b ∷ c ∷ [])) s
  perform_lem (Request.orders_active a b x) s =
      on_series-some (Request.orders_active a b x) (p.set orders_active (a ∷ b ∷ []) x) s
  perform_lem (Request.tickets_active a b x) s =
      on_series-some (Request.tickets_active a b x) (p.set tickets_active (a ∷ b ∷ []) x) s
  perform_lem (Request.quota_usage a b x) s =
      on_series-some (Request.quota_usage a b x) (p.set quota_usage (a ∷ b ∷ []) x) s
  perform_lem (Request.quota_limits a b x) s =
      on_series-some (Request.quota_limits a b x) (p.set quota_limits (a ∷ b ∷ []) x) s
  perform_lem (Request.reserved a b c x) s =
      on_series-some (Request.reserved a b c x) (p.set reserved_resources (a ∷ b ∷ c ∷ []) x) s
  perform_lem (Request.claimed a b c x) s =
      on_series-some (Request.claimed a b c x) (p.set claimed_resources (a ∷ b ∷ c ∷ []) x) s
  perform_lem (Request.reconciled a b x) s =
      on_series-some (Request.reconciled a b x) (p.observe reconciliation_duration (a ∷ b ∷ []) x) s
  perform_lem (Request.reviewed a b c x) s =
      on_series-some (Request.reviewed a b c x) (p.observe webhook_duration (a ∷ b ∷ c ∷ []) x) s

  shown-set :
      (r : Request) (x : Float64) (e : Event) (s : p.Store)
      → text_eq (vector_of r).name (event_name e) ≡ false
      → shown (p.set (vector_of r) (values_of r) x s) e
        ≡ (if tells e r then suc (shown s e) else shown s e)
  shown-set r x e s gauge = ground (
    arith,
    told-tells e r,
    total-set (vector_of r) (values_of r) x s (event_name e) (event_values e) gauge,
  )

  shown-inc :
      (r : Request) (e : Event) (s : p.Store)
      → shown (p.inc (vector_of r) (values_of r) s) e
        ≡ (if tells e r then suc (shown s e) else shown s e)
  shown-inc r e s =
      rw (← told-tells e r)
        (total-inc (vector_of r) (values_of r) s (event_name e) (event_values e))

  shown-observe :
      (r : Request) (x : Float64) (e : Event) (s : p.Store)
      → shown (p.observe (vector_of r) (values_of r) x s) e
        ≡ (if tells e r then suc (shown s e) else shown s e)
  shown-observe r x e s =
      rw (← told-tells e r)
        (total-observe (vector_of r) (values_of r) x s (event_name e) (event_values e))

  shown-acted :
      (r : Request) (e : Event) (s : p.Store)
      → shown (acted r s) e ≡ (if tells e r then suc (shown s e) else shown s e)
  shown-acted (Request.order_created a b) e s = shown-inc (Request.order_created a b) e s
  shown-acted (Request.ticket_created a b) e s = shown-inc (Request.ticket_created a b) e s
  shown-acted (Request.reconciliation_failed a b) e s =
      shown-inc (Request.reconciliation_failed a b) e s
  shown-acted (Request.guardian_created a) e s = shown-inc (Request.guardian_created a) e s
  shown-acted (Request.webhook_failed a b c) e s = shown-inc (Request.webhook_failed a b c) e s
  shown-acted (Request.orders_active a b x) e s =
      shown-set (Request.orders_active a b x) x e s (gauge-names e).0
  shown-acted (Request.tickets_active a b x) e s =
      shown-set (Request.tickets_active a b x) x e s (gauge-names e).1.0
  shown-acted (Request.quota_usage a b x) e s =
      shown-set (Request.quota_usage a b x) x e s (gauge-names e).1.1.0
  shown-acted (Request.quota_limits a b x) e s =
      shown-set (Request.quota_limits a b x) x e s (gauge-names e).1.1.1.0
  shown-acted (Request.reserved a b c x) e s =
      shown-set (Request.reserved a b c x) x e s (gauge-names e).1.1.1.1.0
  shown-acted (Request.claimed a b c x) e s =
      shown-set (Request.claimed a b c x) x e s (gauge-names e).1.1.1.1.1.0
  shown-acted (Request.reconciled a b x) e s = shown-observe (Request.reconciled a b x) x e s
  shown-acted (Request.reviewed a b c x) e s = shown-observe (Request.reviewed a b c x) x e s

  -- The functions of internal/metrics never panic, whatever texts and numbers they are given and
  -- in whatever order, and afterwards the series of each event that a counter or a histogram is meant to count
  -- shows as many more as there were calls that tell of it. Prometheus is assumed to do what its
  -- documentation says (`IsDocumented`).
  pub perform_all-shown :
      (rs : List Request) (s : p.Store)
      → (s' : p.Store) × (perform_all p rs s ≡ some s')
        × ((e : Event) → shown s' e ≡ shown s e + countb (tells e) rs)
  unfolding perform_all
  perform_all-shown [] s = (s, refl, λ e. omega arith)
  perform_all-shown (r ∷ rs) s =
      let (s', returns, counts) = perform_all-shown rs (acted r s) in
      (
        s',
        rw (perform_all, perform_lem r s) returns,
        λ e. ground (arith, counts e, shown-acted r e s),
      )
