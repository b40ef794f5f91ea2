-- ===== src/Metrics/Requests.antt =====
-- The calls that can be made of the functions of internal/metrics/metrics.go, and a table of the
-- series that each is about.
use korder.Prelude.{Bool, false, Option, none, some, List, [], ◌∷◌, ◌&&◌}
use korder.Prelude.Text.{Text, codes, text_eq}
use korder.Api.Meta.{Float64}
use korder.Metrics.Prometheus.{Prometheus}
use korder.Metrics.Record.{
  inc_orders_total, set_orders_active, inc_tickets_total, set_tickets_active,
  inc_guardian_pods_total, set_quota_usage, set_quota_limits, set_reserved_resources,
  set_claimed_resources, observe_reconciliation_duration, observe_webhook_duration,
  inc_reconciliation_errors, inc_webhook_errors,
}

-- A call of one of the functions, with its arguments.
pub data Request : Type 0 where
  order_created ticket_created reconciliation_failed : Text → Text → Request
  guardian_created : Text → Request
  webhook_failed : Text → Text → Text → Request
  orders_active tickets_active quota_usage quota_limits : Text → Text → Float64 → Request
  reserved claimed : Text → Text → Text → Float64 → Request
  reconciled : Text → Text → Float64 → Request
  reviewed : Text → Text → Text → Float64 → Request

module _ (p : Prometheus) where
  unfoldable pub perform : Request → p.Store → Option p.Store
  perform (order_created n s) = inc_orders_total p n s
  perform (ticket_created n f) = inc_tickets_total p n f
  perform (reconciliation_failed c e) = inc_reconciliation_errors p c e
  perform (guardian_created n) = inc_guardian_pods_total p n
  perform (webhook_failed w o e) = inc_webhook_errors p w o e
  perform (orders_active n s x) = set_orders_active p n s x
  perform (tickets_active n f x) = set_tickets_active p n f x
  perform (quota_usage q r x) = set_quota_usage p q r x
  perform (quota_limits q r x) = set_quota_limits p q r x
  perform (reserved n r u x) = set_reserved_resources p n r u x
  perform (claimed n r u x) = set_claimed_resources p n r u x
  perform (reconciled c r x) = observe_reconciliation_duration p c r x
  perform (reviewed w o r x) = observe_webhook_duration p w o r x

  -- Requests in turn, until one panics.
  unfoldable pub perform_all : List Request → p.Store → Option p.Store
  perform_all [] s = some s
  perform_all (r ∷ rs) s = elim (perform r s) [ none ↦ none | some s' ↦ perform_all rs s' ]

-- An event that a counter or a histogram counts.
pub data Event : Type 0 where
  order_created ticket_created reconciliation_failed reconciled : Text → Text → Event
  guardian_created : Text → Event
  webhook_failed reviewed : Text → Text → Text → Event

-- The name under which the event is published, and the values of its labels.
unfoldable pub event_name : Event → Text
event_name (Event.order_created n s) = codes "korder_orders_total"
event_name (Event.ticket_created n f) = codes "korder_tickets_total"
event_name (Event.reconciliation_failed c e) = codes "korder_reconciliation_errors_total"
event_name (Event.reconciled c r) = codes "korder_reconciliation_duration_seconds"
event_name (Event.guardian_created n) = codes "korder_guardian_pods_total"
event_name (Event.webhook_failed w o e) = codes "korder_webhook_errors_total"
event_name (Event.reviewed w o r) = codes "korder_webhook_duration_seconds"

unfoldable pub event_values : Event → List Text
event_values (Event.order_created a b) = a ∷ b ∷ []
event_values (Event.ticket_created a b) = a ∷ b ∷ []
event_values (Event.reconciliation_failed a b) = a ∷ b ∷ []
event_values (Event.reconciled a b) = a ∷ b ∷ []
event_values (Event.guardian_created a) = a ∷ []
event_values (Event.webhook_failed a b c) = a ∷ b ∷ c ∷ []
event_values (Event.reviewed a b c) = a ∷ b ∷ c ∷ []

-- Whether the request tells of the event.
unfoldable pub tells : Event → Request → Bool
tells (Event.order_created a b) (Request.order_created c d) = text_eq a c && text_eq b d
tells (Event.ticket_created a b) (Request.ticket_created c d) = text_eq a c && text_eq b d
tells (Event.reconciliation_failed a b) (Request.reconciliation_failed c d) =
    text_eq a c && text_eq b d
tells (Event.reconciled a b) (Request.reconciled c d x) = text_eq a c && text_eq b d
tells (Event.guardian_created a) (Request.guardian_created c) = text_eq a c
tells (Event.webhook_failed a b e) (Request.webhook_failed c d f) =
    text_eq a c && (text_eq b d && text_eq e f)
tells (Event.reviewed a b e) (Request.reviewed c d f x) =
    text_eq a c && (text_eq b d && text_eq e f)
tells _ _ = false
