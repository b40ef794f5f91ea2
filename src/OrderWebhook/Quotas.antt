-- ===== src/OrderWebhook/Quotas.antt =====
-- internal/webhook/v1alpha1/order_webhook.go: the quota checks of an order, from
-- validateQuotaCompliance to calculateOrderResourceRequests.
use korder.Prelude.{
  Bool, true, false, Option, none, some, List, [], ◌∷◌, ◌++◌, if◌then◌else◌, get_or, anyb, length,
}
use korder.Prelude.Int.{ℤ, pos, ◌*ℤ◌, wrap64}
use korder.Prelude.Text.{Text, codes, text_eq, lookup, insert}
use korder.Api.Meta.{ResourceList}
use korder.Api.Ticket.{Ticket}
use korder.Api.Order.{Order}
use korder.Api.Quota.{Quota, QuotaScopeType}
use korder.Client.{
  Cluster, Error, Reply, ok, err, M, pure, ◌>>=◌, find_quotas, find_orders, find_tickets,
  in_namespace,
}
use korder.Usage.{enter_count, check_projected}

-- The orders and the tickets of a scope.
abbrev pub Scoped : Type 0
Scoped = List Order × List Ticket

-- List of orders and of tickets in a namespace, or in all where the name is empty.
unfoldable pub list_both : Cluster → Text → M (Reply Scoped)
list_both env ns = do
  orders ← find_orders env (in_namespace ns)
  elim orders [
    | err e ↦ pure (err e)
    | ok os ↦ do
      tickets ← find_tickets env ns []
      elim tickets [ err e ↦ pure (err e) | ok ts ↦ pure (ok (os, ts)) ]
  ]

-- The loop over the namespaces of a quota.
unfoldable pub list_each : Cluster → List Text → List Order → List Ticket → M (Reply Scoped)
unfolding list_both
list_each env [] os ts = pure (ok (os, ts))
list_each env (ns ∷ rest) os ts = list_both env ns >>= λ found. elim found [
  | err e ↦ pure (err e)
  | ok both ↦ list_each env rest (os ++ both.0) (ts ++ both.1)
]

-- getResourcesInScope
unfoldable pub resources_in_scope : Cluster → Quota → M (Reply Scoped)
unfolding list_both list_each
resources_in_scope env quota = elim quota.spec.scope.kind [
  | QuotaScopeType.cluster ↦ list_both env []
  | QuotaScopeType.namespace_list ↦ list_each env quota.spec.scope.namespaces [] []
  | _ ↦ pure (ok ([], []))
]

-- calculateQuotaUsage
unfoldable pub quota_usage : Cluster → Quota → M (Reply ResourceList)
unfolding resources_in_scope enter_count
quota_usage env quota = do
  scoped ← resources_in_scope env quota
  elim scoped [
    | err e ↦ pure (err e)
    | ok both ↦ pure (
        ok (
          enter_count env (codes "tickets") (length both.1)
            (enter_count env (codes "orders") (length both.0) [])))
  ]

-- doesQuotaApply
unfoldable pub quota_applies : Text → Quota → Bool
quota_applies ns quota = elim quota.spec.scope.kind [
  | QuotaScopeType.cluster ↦ true
  | QuotaScopeType.namespace_list ↦ anyb (λ n. text_eq n ns) quota.spec.scope.namespaces
  | _ ↦ false
]

abbrev pub hard_limits : Quota → ResourceList
hard_limits quota = get_or quota.spec.hard []

-- validateAgainstQuotas
unfoldable pub validate_against_quotas : Cluster → Text → ResourceList → M (Option Error)
validate_against_quotas env ns requests = do
  listed ← find_quotas env
  elim listed [
    | err e ↦ pure (some e)
    | ok quotas ↦
        check_projected env (λ quota. pure (quota_applies ns quota)) (quota_usage env) hard_limits
          requests quotas
  ]

unfoldable pub reserve : Cluster → ℤ → ResourceList → ResourceList → ResourceList
reserve env replicas [] into = into
reserve env replicas ((name, q) ∷ rs) into =
    reserve env replicas rs
      (insert (codes "reserved." ++ name) (env.set_value q (wrap64 (env.value q *ℤ replicas))) into)

-- calculateOrderResourceRequests
unfoldable pub resource_requests : Cluster → Order → ResourceList
unfolding reserve
resource_requests env order =
    let replicas = get_or order.spec.replicas (pos 1) in
    let counts =
      insert (codes "tickets") (env.new_quantity replicas)
        ((codes "orders", env.new_quantity (pos 1)) ∷ []) in
    elim order.spec.template.spec.resources [
      | none ↦ counts
      | some r ↦ reserve env replicas (get_or r.requests []) counts
    ]

-- The differences that are not zero.
unfoldable pub deltas : Cluster → ResourceList → ResourceList → ResourceList
deltas env old [] = []
deltas env old ((name, q) ∷ new) =
    let rest = deltas env old new in
    elim (lookup name old) [
      | none ↦ (name, q) ∷ rest
      | some was ↦
          if env.is_zero (env.sub_quantity q was)
          then rest
          else (name, env.sub_quantity q was) ∷ rest
    ]

-- validateQuotaComplianceUpdate
unfoldable pub validate_growth : Cluster → Order → Order → M (Option Error)
unfolding deltas validate_against_quotas resource_requests
validate_growth env old new =
    let grown = deltas env (resource_requests env old) (resource_requests env new) in
    if anyb (λ r. env.is_positive r.1) grown
    then validate_against_quotas env new.meta.namespace grown
    else pure none
