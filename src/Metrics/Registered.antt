-- ===== src/Metrics/Registered.antt =====
-- The registration of the vectors of internal/metrics/metrics.go.
use korder.Prelude.{◌≡◌, arith, countb}
use korder.Prelude.Text.{text_eq}
use korder.Metrics.Vectors.{
  orders_total, orders_active, tickets_total, tickets_active, guardian_pods_total, quota_usage,
  quota_limits, reserved_resources, claimed_resources, reconciliation_duration, webhook_duration,
  reconciliation_errors, webhook_errors, registered,
}
use korder.Metrics.Series.{vector_of}
use korder.Metrics.Requests.{Request}

-- For every call of a function of internal/metrics, exactly one of the vectors that RegisterMetrics
-- registers has the name of the vector that the call is about: what is counted or set is published,
-- and MustRegister meets no name of these twice.
pub registered_once : (r : Request) → countb (λ v. text_eq v.name (vector_of r).name) registered ≡ 1
unfolding registered text_eq orders_total orders_active tickets_total tickets_active
    guardian_pods_total quota_usage quota_limits reserved_resources claimed_resources
    reconciliation_duration webhook_duration reconciliation_errors webhook_errors
registered_once r = grind arith
