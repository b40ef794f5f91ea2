-- ===== src/Metrics/Series.antt =====
-- The series of the requests of internal/metrics/metrics.go: which events they tell of.
use korder.Prelude.{◌≡◌, false, List, [], ◌∷◌, ◌&&◌, arith, All, length}
use korder.Prelude.Text.{Text, text_eq}
use korder.Metrics.Vectors.{
  Vector, orders_total, orders_active, tickets_total, tickets_active, guardian_pods_total,
  quota_usage, quota_limits, reserved_resources, claimed_resources, reconciliation_duration,
  webhook_duration, reconciliation_errors, webhook_errors,
}
use korder.Metrics.Prometheus.{texts_eq}
use korder.Metrics.Requests.{Request, Event, event_name, event_values, tells}

-- The vector and the values of the labels that a request is about.
abbrev pub vector_of : Request → Vector
vector_of (Request.order_created a b) = orders_total
vector_of (Request.ticket_created a b) = tickets_total
vector_of (Request.reconciliation_failed a b) = reconciliation_errors
vector_of (Request.guardian_created a) = guardian_pods_total
vector_of (Request.webhook_failed a b c) = webhook_errors
vector_of (Request.orders_active a b x) = orders_active
vector_of (Request.tickets_active a b x) = tickets_active
vector_of (Request.quota_usage a b x) = quota_usage
vector_of (Request.quota_limits a b x) = quota_limits
vector_of (Request.reserved a b c x) = reserved_resources
vector_of (Request.claimed a b c x) = claimed_resources
vector_of (Request.reconciled a b x) = reconciliation_duration
vector_of (Request.reviewed a b c x) = webhook_duration

abbrev pub values_of : Request → List Text
values_of (Request.order_created a b) = a ∷ b ∷ []
values_of (Request.ticket_created a b) = a ∷ b ∷ []
values_of (Request.reconciliation_failed a b) = a ∷ b ∷ []
values_of (Request.guardian_created a) = a ∷ []
values_of (Request.webhook_failed a b c) = a ∷ b ∷ c ∷ []
values_of (Request.orders_active a b x) = a ∷ b ∷ []
values_of (Request.tickets_active a b x) = a ∷ b ∷ []
values_of (Request.quota_usage a b x) = a ∷ b ∷ []
values_of (Request.quota_limits a b x) = a ∷ b ∷ []
values_of (Request.reserved a b c x) = a ∷ b ∷ c ∷ []
values_of (Request.claimed a b c x) = a ∷ b ∷ c ∷ []
values_of (Request.reconciled a b x) = a ∷ b ∷ []
values_of (Request.reviewed a b c x) = a ∷ b ∷ c ∷ []

pub length-values_of : (r : Request) → length (values_of r) ≡ length (vector_of r).labels
unfolding orders_total orders_active tickets_total tickets_active guardian_pods_total quota_usage
    quota_limits reserved_resources claimed_resources reconciliation_duration webhook_duration
    reconciliation_errors webhook_errors
length-values_of r = grind arith

pub told-tells :
    (e : Event) (r : Request)
    → (text_eq (vector_of r).name (event_name e) && texts_eq (event_values e) (values_of r))
      ≡ tells e r
unfolding orders_total tickets_total reconciliation_errors guardian_pods_total webhook_errors
    orders_active tickets_active quota_usage quota_limits reserved_resources claimed_resources
    reconciliation_duration webhook_duration event_name event_values tells text_eq texts_eq
told-tells e r = grind arith

-- Gauges are named differently from what counts events.
pub gauge-names :
    (e : Event)
    → All
        (λ v. text_eq v.name (event_name e) ≡ false)
        (orders_active ∷ tickets_active ∷ quota_usage ∷ quota_limits ∷ reserved_resources
          ∷ claimed_resources ∷ [])
unfolding orders_total tickets_total reconciliation_errors guardian_pods_total webhook_errors
    orders_active tickets_active quota_usage quota_limits reserved_resources claimed_resources
    reconciliation_duration webhook_duration event_name text_eq
gauge-names e =
    elim e
      as (λ e.
        All (λ v. text_eq v.name (event_name e) ≡ false)
          (orders_active ∷ tickets_active ∷ quota_usage ∷ quota_limits ∷ reserved_resources
            ∷ claimed_resources ∷ [])) [
              | Event.order_created a b ↦ ground arith
              | Event.ticket_created a b ↦ ground arith
              | Event.reconciliation_failed a b ↦ ground arith
              | Event.reconciled a b ↦ ground arith
              | Event.guardian_created a ↦ ground arith
              | Event.webhook_failed a b c ↦ ground arith
              | Event.reviewed a b c ↦ ground arith
            ]
