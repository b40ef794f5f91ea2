-- ===== src/Admitted.antt =====
-- The webhook of orders (internal/webhook/v1alpha1/order_webhook.go) before the order controller
-- (internal/controller/order_controller.go): what the controller does with the orders that the
-- webhook lets in.
pub mod Refused
mod Tests
use korder.Prelude.{ℕ, ◌≡◌, refl, true, false, Option, none, some, arith, is_some, get_or}
use korder.Prelude.Int.{ℤ, pos, negsuc}
use korder.Api.Meta.{Key}
use korder.Api.Order.{Order}
use korder.Client.{Cluster, Trace, ok}
use korder.TicketWebhook.Spec.{Verdict}
use korder.OrderController.Reconcile.{reconcile}
use korder.OrderController.Returns.{ListsAreShort, reconcile_stays_in_slices}
use korder.OrderWebhook.Spec.{validate_spec, is_below_zero}
use korder.OrderWebhook.Validator.{validate_create}

validate_create-replicas :
    (env : Cluster) (order : Order) (tr : Trace) (v : Verdict)
    → (validate_create env order tr).0 ≡ some v
    → v.error ≡ none
    → is_below_zero order.spec.replicas ≡ false
unfolding validate_create validate_spec
validate_create-replicas env order tr v made accepted = ground arith

wanted :
    (replicas : Option ℤ)
    → is_below_zero replicas ≡ false
    → (n : ℕ) × (get_or replicas (pos 1) ≡ pos n)
unfolding is_below_zero
wanted none h = (1, refl)
wanted (some (pos n)) h = (n, refl)
wanted (some (negsuc n)) h = absurd (ground arith)

-- The reconciler does not panic on an order that the webhook has accepted as a new one, if every
-- list of active tickets is shorter than 2 ^ 31.
pub validate_create-reconcile :
    (at_webhook at_controller : Cluster) (order : Order) (key : Key) (tr tr' : Trace) (v : Verdict)
    → (validate_create at_webhook order tr).0 ≡ some v
    → v.error ≡ none
    → ListsAreShort at_controller
    → at_controller.order_at tr' key ≡ ok order
    → is_some (reconcile at_controller key tr').0 ≡ true
validate_create-reconcile at_webhook at_controller order key tr tr' v made accepted short found =
    let above = validate_create-replicas at_webhook order tr v made accepted in
    let (n, wants) = wanted order.spec.replicas above in
    reconcile_stays_in_slices at_controller key order tr' n short found wants
