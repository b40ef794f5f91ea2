-- ===== src/OrderWebhook/Admission.antt =====
-- Which orders the quotas admit.
use korder.Prelude.{
  ℕ, is_some, ◌≡◌, refl, ◌∙◌, inl, inr, true, false, none, some, List, [], ◌∷◌, arith, get_or,
  length, All, get_elem?, All-get_elem?, Option-cases, ap,
}
use korder.Prelude.Int.{pos, scale, ◌+ℤ◌, ◌≤ℤ◌}
use korder.Prelude.Text.{Text, codes, text_eq, lookup}
use korder.Api.Meta.{ResourceList, Quantity}
use korder.Api.Order.{Order}
use korder.Api.Quota.{Quota}
use korder.Client.{Cluster, Trace, ok, err, pure, list_quotas}
use korder.TicketWebhook.Spec.{Verdict}
use korder.OrderWebhook.Quotas.{
  Scoped, resources_in_scope, quota_usage, quota_applies, hard_limits, validate_against_quotas,
  resource_requests,
}
use korder.OrderWebhook.Validator.{validate_create}
use korder.OrderWebhook.Requests.{sum_at-resource_requests, lookup-resource_requests}
use korder.Usage.Measure.{
  IsMeasured, amount_at, sum_at, project-within, amount_at-enter_count, lookup-enter_count,
}
use korder.Usage.Within.{Kept, check_projected-Kept}
use korder.Usage.{enter_count}

-- The usage of a quota counts the orders and the tickets of its scope and has nothing else.
unfoldable pub counted : Cluster → Scoped → ResourceList
counted env both =
    enter_count env (codes "tickets") (length both.1)
      (enter_count env (codes "orders") (length both.0) [])

quota_usage-counted :
    (env : Cluster) (quota : Quota) (at : Trace) (usage : ResourceList)
    → (quota_usage env quota at).0 ≡ some (ok usage)
    → (both : Scoped) × ((resources_in_scope env quota at).0 ≡ some (ok both))
      × (usage ≡ counted env both)
unfolding quota_usage counted
quota_usage-counted env quota at usage h = elim (Option-cases (resources_in_scope env quota at).0) [
  | inl never ↦ absurd (ground arith)
  | inr (ok both, found) ↦ (both, found, ground arith)
  | inr (err e, found) ↦ absurd (ground arith)
]

-- The usage of a quota has no other name than orders and tickets: what is reserved is not counted,
-- so a limit on it is compared with each new order alone.
pub quota_usage-reserved :
    (env : Cluster) (quota : Quota) (at : Trace) (usage : ResourceList) (name : Text)
    → (quota_usage env quota at).0 ≡ some (ok usage)
    → text_eq (codes "orders") name ≡ false
    → text_eq (codes "tickets") name ≡ false
    → lookup name usage ≡ none
unfolding lookup
quota_usage-reserved env quota at usage name h not_orders not_tickets =
    let (both, found, same) = quota_usage-counted env quota at usage h in
    unfold counted in
    ap (lookup name) same
    ∙ lookup-enter_count env (codes "tickets") name (length both.1)
        (enter_count env (codes "orders") (length both.0) []) not_tickets
    ∙ lookup-enter_count env (codes "orders") name (length both.0) [] not_orders

orders_are_not_tickets : text_eq (codes "orders") (codes "tickets") ≡ false
unfolding text_eq
orders_are_not_tickets = refl

module _ (env : Cluster) (measured : IsMeasured env) where
  pub amount_at-counted :
      (both : Scoped)
      → amount_at env measured (codes "tickets") (counted env both)
        ≡ scale measured.unit (pos (length both.1))
  unfolding counted lookup
  amount_at-counted both =
      amount_at-enter_count env measured (codes "tickets") (length both.1)
        (enter_count env (codes "orders") (length both.0) [])
        (lookup-enter_count env (codes "orders") (codes "tickets") (length both.0) []
          orders_are_not_tickets)

  quotas_pass :
      (order : Order) (tr : Trace) (v : Verdict)
      → (validate_create env order tr).0 ≡ some v
      → v.error ≡ none
      → (validate_against_quotas env order.meta.namespace (resource_requests env order) tr).0
        ≡ some none
  unfolding validate_create
  quotas_pass order tr v made accepted =
      elim (Option-cases
        (validate_against_quotas env order.meta.namespace (resource_requests env order) tr).0) [
          | inl never ↦ absurd (ground arith)
          | inr (none, passed) ↦ passed
          | inr (some e, failed) ↦ absurd (ground arith)
        ]

  abbrev Admits : Text → ResourceList → Quota → Type 0
  Admits ns requests =
      Kept env (λ quota. pure (quota_applies ns quota)) (quota_usage env) hard_limits requests

  validate_against_quotas-Admits :
      (ns : Text) (requests : ResourceList) (quotas : List Quota) (tr : Trace)
      → env.quotas_at tr ≡ ok quotas
      → (validate_against_quotas env ns requests tr).0 ≡ some none
      → All (Admits ns requests) quotas
  unfolding validate_against_quotas
  validate_against_quotas-Admits ns requests quotas tr listed passed =
      check_projected-Kept env (λ quota. pure (quota_applies ns quota)) (quota_usage env)
        hard_limits requests quotas (list_quotas ∷ tr) (ground arith)

  -- Requests that the quotas let pass leave the tickets within the limit of each quota.
  pub tickets_fit :
      (ns : Text) (requests : ResourceList) (quotas : List Quota) (i : ℕ) (quota : Quota)
      (limit : Quantity) (tr : Trace)
      → env.quotas_at tr ≡ ok quotas
      → (validate_against_quotas env ns requests tr).0 ≡ some none
      → get_elem? quotas i ≡ some quota
      → quota_applies ns quota ≡ true
      → lookup (codes "tickets") (hard_limits quota) ≡ some limit
      → is_some (lookup (codes "tickets") requests) ≡ true
      → (at : Trace) × (both : Scoped) × ((resources_in_scope env quota at).0 ≡ some (ok both))
        × (scale measured.unit (pos (length both.1))
              +ℤ sum_at env measured (codes "tickets") requests
            ≤ℤ measured.measure limit)
  unfolding Kept
  tickets_fit ns requests quotas i quota limit tr listed passed here applies limited asked =
      let kept = validate_against_quotas-Admits ns requests quotas tr listed passed in
      let (at, either) = All-get_elem? (Admits ns requests) quotas i quota kept here in
      elim either [
        | inl skipped ↦ absurd (ground arith)
        | inr (usage, found, fine) ↦
            let (both, scoped, same) = quota_usage-counted env quota at usage found in
            (
              at,
              both,
              scoped,
              ground (
                arith,
                project-within env measured usage requests (hard_limits quota) (codes "tickets")
                    limit fine limited asked,
                ap (amount_at env measured (codes "tickets")) same,
                amount_at-counted both,
              ),
            )
      ]

  -- A new order is admitted only if, for each quota that applies to its namespace and limits the
  -- tickets, the tickets that the server lists in the scope of the quota and the replicas of the order
  -- together are within the limit. Quantities follow the laws of `IsMeasured`.
  pub validate_create-tickets :
      (order : Order) (quotas : List Quota) (i : ℕ) (quota : Quota) (limit : Quantity) (tr : Trace)
      (v : Verdict)
      → env.quotas_at tr ≡ ok quotas
      → (validate_create env order tr).0 ≡ some v
      → v.error ≡ none
      → get_elem? quotas i ≡ some quota
      → quota_applies order.meta.namespace quota ≡ true
      → lookup (codes "tickets") (hard_limits quota) ≡ some limit
      → (at : Trace) × (both : Scoped) × ((resources_in_scope env quota at).0 ≡ some (ok both))
        × (scale measured.unit (pos (length both.1))
              +ℤ scale measured.unit (get_or order.spec.replicas (pos 1))
            ≤ℤ measured.measure limit)
  validate_create-tickets order quotas i quota limit tr v listed made accepted here applies
        limited =
      let requests = resource_requests env order in
      let passed = quotas_pass order tr v made accepted in
      let (at, both, scoped, fit) =
        tickets_fit order.meta.namespace requests quotas i quota limit tr listed passed here applies
          limited (ground (arith, lookup-resource_requests env order)) in
      (at, both, scoped, ground (arith, fit, sum_at-resource_requests env measured order))
