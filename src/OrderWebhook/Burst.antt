-- ===== src/OrderWebhook/Burst.antt =====
-- Orders that the webhook of internal/webhook/v1alpha1/order_webhook.go is asked about before their
-- tickets exist.
use korder.Prelude.{
  ◌≡◌, refl, Bool, true, false, none, some, List, [], ◌∷◌, ◌&&◌, not, is_some, arith, length,
  get_or, All, inl, inr, Option-cases,
}
use korder.Prelude.Int.{pos, scale, ◌+ℤ◌, ◌≤ℤ◌}
use korder.Prelude.Text.{codes, lookup}
use korder.Api.Meta.{ResourceList, Quantity}
use korder.Api.Ticket.{Ticket}
use korder.Api.Order.{Order}
use korder.Api.Quota.{Quota, QuotaScopeType}
use korder.Client.{Cluster, Trace, ok, list_quotas, list_orders, in_namespace}
use korder.OrderWebhook.Spec.{validate_spec}
use korder.OrderWebhook.Quotas.{
  resources_in_scope, list_both, quota_usage, quota_applies, validate_against_quotas,
  resource_requests,
}
use korder.OrderWebhook.Validator.{validate_create}
use korder.OrderWebhook.Requests.{sum_at-resource_requests}
use korder.OrderWebhook.Admission.{counted, amount_at-counted}
use korder.Usage.{is_exceeded, project, check_projected}
use korder.Usage.Measure.{IsMeasured, amount_at, amount_at-project}

-- The server once these orders exist.
abbrev pub with_orders : Cluster → List Order → Cluster
with_orders env os = record env { orders_at = λ tr s. ok os }

abbrev with_orders-IsMeasured :
    (env : Cluster) (os : List Order) → IsMeasured env → IsMeasured (with_orders env os)
with_orders-IsMeasured env os measured = record {
  unit = measured.unit;
  measure = measured.measure;
  exceeds_lem = measured.exceeds_lem;
  is_zero_lem = measured.is_zero_lem;
  is_positive_lem = measured.is_positive_lem;
  add_quantity_lem = measured.add_quantity_lem;
  sub_quantity_lem = measured.sub_quantity_lem;
  zero_quantity_lem = measured.zero_quantity_lem;
  new_quantity_lem = measured.new_quantity_lem;
}

-- Whether a creation is accepted.
abbrev pub admits : Cluster → Order → Bool
admits env order = elim (validate_create env order []).0 [
  | none ↦ false
  | some v ↦ not (is_some v.error)
]

-- Whether the orders are accepted one after the other, while no ticket is created.
unfoldable pub admits_in_turn : Cluster → List Order → List Order → Bool
admits_in_turn env existing [] = true
admits_in_turn env existing (o ∷ os) =
    admits (with_orders env existing) o && admits_in_turn env (o ∷ existing) os

-- A limit on one name is not exceeded by an amount that is not above it.
not_exceeded :
    (env : Cluster) (measured : IsMeasured env) (usage : ResourceList) (limit : Quantity)
    → amount_at env measured (codes "tickets") usage ≤ℤ measured.measure limit
    → is_exceeded env usage ((codes "tickets", limit) ∷ []) ≡ false
unfolding is_exceeded amount_at
not_exceeded env measured usage limit fits = elim (Option-cases (lookup (codes "tickets") usage)) [
  | inl missing ↦ ground (arith, missing)
  | inr (used, found) ↦ ground (arith, found, measured.exceeds_lem used limit)
]

module _ (env : Cluster) (measured : IsMeasured env) (os : List Order) (ts : List Ticket)
    (quota : Quota) (limit : Quantity) where
  usage_lem :
      (tr : Trace)
      → quota.spec.scope.kind ≡ QuotaScopeType.cluster
      → env.orders_at tr (in_namespace []) ≡ ok os
      → env.tickets_at (list_orders (in_namespace []) ∷ tr) [] [] ≡ ok ts
      → (quota_usage env quota tr).0 ≡ some (ok (counted env (os, ts)))
  unfolding quota_usage resources_in_scope list_both counted
  usage_lem tr whole ordered listed = ground (arith, whole, ordered, listed)

  projected_fits :
      (order : Order)
      → scale measured.unit (pos (length ts))
          +ℤ scale measured.unit (get_or order.spec.replicas (pos 1))
        ≤ℤ measured.measure limit
      → is_exceeded env
          (project env (counted env (os, ts)) (resource_requests env order))
          ((codes "tickets", limit) ∷ [])
        ≡ false
  projected_fits order fits =
      let requests = resource_requests env order in
      let usage = counted env (os, ts) in
      not_exceeded env measured (project env usage requests) limit (
        rw
          (
            amount_at-project env measured (codes "tickets") usage requests,
            amount_at-counted env measured (os, ts),
            sum_at-resource_requests env measured order,
          )
          fits)

  -- An order that fits beside the tickets passes, whatever orders there are.
  passes :
      (order : Order)
      → env.quotas_at [] ≡ ok (quota ∷ [])
      → quota.spec.scope.kind ≡ QuotaScopeType.cluster
      → quota.spec.hard ≡ some ((codes "tickets", limit) ∷ [])
      → env.orders_at (list_quotas ∷ []) (in_namespace []) ≡ ok os
      → env.tickets_at (list_orders (in_namespace []) ∷ list_quotas ∷ []) [] [] ≡ ok ts
      → (validate_spec env order).error ≡ none
      → scale measured.unit (pos (length ts))
          +ℤ scale measured.unit (get_or order.spec.replicas (pos 1))
        ≤ℤ measured.measure limit
      → admits env order ≡ true
  unfolding validate_create validate_against_quotas check_projected quota_applies
  passes order one whole hard ordered listed valid fits =
      let e1 = usage_lem (list_quotas ∷ []) whole ordered listed in
      let e2 = projected_fits order fits in ground (arith, one, whole, hard, e1, e2, valid)

-- A burst of orders, each of which fits on its own.
abbrev pub Fits : (env : Cluster) → IsMeasured env → List Ticket → Quantity → Order → Type 0
Fits env measured ts limit order =
    ((os : List Order) → (validate_spec (with_orders env os) order).error ≡ none)
    × (scale measured.unit (pos (length ts))
          +ℤ scale measured.unit (get_or order.spec.replicas (pos 1))
        ≤ℤ measured.measure limit)

-- Where one quota on the whole cluster limits the tickets and nothing else, any number of orders is
-- admitted in turn while no ticket of theirs is created, if each has a valid specification and would
-- fit alone beside the tickets that exist: the orders that are admitted before do not count.
-- Quantities follow the laws of `IsMeasured`.
pub admits_in_turn_lem :
    (env : Cluster) (measured : IsMeasured env) (ts : List Ticket) (quota : Quota)
    (limit : Quantity) (existing orders : List Order)
    → ((tr : Trace) → env.quotas_at tr ≡ ok (quota ∷ []))
    → quota.spec.scope.kind ≡ QuotaScopeType.cluster
    → quota.spec.hard ≡ some ((codes "tickets", limit) ∷ [])
    → ((tr : Trace) → env.tickets_at tr [] [] ≡ ok ts)
    → All (Fits env measured ts limit) orders
    → admits_in_turn env existing orders ≡ true
unfolding admits_in_turn ◌+ℤ◌
admits_in_turn_lem env measured ts quota limit existing [] one whole hard listed fit = refl
admits_in_turn_lem env measured ts quota limit existing (o ∷ os) one whole hard listed (fits, fit) =
    let first : admits (with_orders env existing) o ≡ true =
      passes (with_orders env existing) (with_orders-IsMeasured env existing measured) existing ts
        quota limit o (one []) whole hard refl (listed _) (fits.0 existing) fits.1 in
    rw first
      (admits_in_turn_lem env measured ts quota limit (o ∷ existing) os one whole hard listed fit)
