-- ===== src/Metrics/Record.antt =====
-- internal/metrics/metrics.go: the functions by which the program counts, sets and observes.
use korder.Prelude.{Option, none, some, List, [], ◌∷◌, if◌then◌else◌}
use korder.Prelude.Text.{Text}
use korder.Api.Meta.{Float64}
use korder.Metrics.Prometheus.{Prometheus}
use korder.Metrics.Vectors.{
  Vector, orders_total, orders_active, tickets_total, tickets_active, guardian_pods_total,
  quota_usage, quota_limits, reserved_resources, claimed_resources, reconciliation_duration,
  webhook_duration, reconciliation_errors, webhook_errors,
}

module _ (p : Prometheus) where
  -- An operation on a series, `none` where WithLabelValues panics.
  abbrev pub on_series : Vector → List Text → (p.Store → p.Store) → p.Store → Option p.Store
  on_series v vs act s = if p.labelled v vs then some (act s) else none

  unfoldable pub inc_orders_total : Text → Text → p.Store → Option p.Store
  inc_orders_total namespace strategy =
      let vs = namespace ∷ strategy ∷ [] in on_series orders_total vs (p.inc orders_total vs)

  unfoldable pub set_orders_active : Text → Text → Float64 → p.Store → Option p.Store
  set_orders_active namespace strategy count =
      let vs = namespace ∷ strategy ∷ [] in
      on_series orders_active vs (p.set orders_active vs count)

  unfoldable pub inc_tickets_total : Text → Text → p.Store → Option p.Store
  inc_tickets_total namespace phase =
      let vs = namespace ∷ phase ∷ [] in on_series tickets_total vs (p.inc tickets_total vs)

  unfoldable pub set_tickets_active : Text → Text → Float64 → p.Store → Option p.Store
  set_tickets_active namespace phase count =
      let vs = namespace ∷ phase ∷ [] in on_series tickets_active vs (p.set tickets_active vs count)

  unfoldable pub inc_guardian_pods_total : Text → p.Store → Option p.Store
  inc_guardian_pods_total namespace =
      let vs = namespace ∷ [] in on_series guardian_pods_total vs (p.inc guardian_pods_total vs)

  unfoldable pub set_quota_usage : Text → Text → Float64 → p.Store → Option p.Store
  set_quota_usage quota_name resource_type ratio =
      let vs = quota_name ∷ resource_type ∷ [] in
      on_series quota_usage vs (p.set quota_usage vs ratio)

  unfoldable pub set_quota_limits : Text → Text → Float64 → p.Store → Option p.Store
  set_quota_limits quota_name resource_type limit =
      let vs = quota_name ∷ resource_type ∷ [] in
      on_series quota_limits vs (p.set quota_limits vs limit)

  unfoldable pub set_reserved_resources : Text → Text → Text → Float64 → p.Store → Option p.Store
  set_reserved_resources namespace resource_type unit amount =
      let vs = namespace ∷ resource_type ∷ unit ∷ [] in
      on_series reserved_resources vs (p.set reserved_resources vs amount)

  unfoldable pub set_claimed_resources : Text → Text → Text → Float64 → p.Store → Option p.Store
  set_claimed_resources namespace resource_type unit amount =
      let vs = namespace ∷ resource_type ∷ unit ∷ [] in
      on_series claimed_resources vs (p.set claimed_resources vs amount)

  unfoldable pub observe_reconciliation_duration : Text → Text → Float64 → p.Store → Option p.Store
  observe_reconciliation_duration controller result duration =
      let vs = controller ∷ result ∷ [] in
      on_series reconciliation_duration vs (p.observe reconciliation_duration vs duration)

  unfoldable pub observe_webhook_duration : Text → Text → Text → Float64 → p.Store → Option p.Store
  observe_webhook_duration webhook operation result duration =
      let vs = webhook ∷ operation ∷ result ∷ [] in
      on_series webhook_duration vs (p.observe webhook_duration vs duration)

  unfoldable pub inc_reconciliation_errors : Text → Text → p.Store → Option p.Store
  inc_reconciliation_errors controller error_type =
      let vs = controller ∷ error_type ∷ [] in
      on_series reconciliation_errors vs (p.inc reconciliation_errors vs)

  unfoldable pub inc_webhook_errors : Text → Text → Text → p.Store → Option p.Store
  inc_webhook_errors webhook operation error_type =
      let vs = webhook ∷ operation ∷ error_type ∷ [] in
      on_series webhook_errors vs (p.inc webhook_errors vs)
