-- ===== src/OrderWebhook/Decision.antt =====
-- When a new order is refused.
use korder.Prelude.{
  ◌≡◌, refl, ◌∙◌, ap, Bool, not, ◌&&◌, ◌||◌, Option, some, List, [], ◌∷◌, arith, allb, is_some, inl,
  inr, Option-cases,
}
use korder.Prelude.Text.{Text}
use korder.Api.Meta.{ResourceList}
use korder.Api.Order.{Order}
use korder.Api.Quota.{Quota}
use korder.Client.{Cluster, Error, Trace, ok, list_quotas, pure}
use korder.TicketWebhook.Spec.{Verdict}
use korder.OrderWebhook.Spec.{validate_spec}
use korder.OrderWebhook.Quotas.{
  quota_usage, quota_applies, hard_limits, validate_against_quotas, resource_requests,
}
use korder.OrderWebhook.Validator.{validate_create}
use korder.Usage.{project}
use korder.Usage.Within.{check_projected-fits, fits, within_limit, is_exceeded-allb}

de_morgan : (a b : Bool) → (not a || b) ≡ not (a && not b)
de_morgan a b = ground arith

module _ (env : Cluster) (usage : Quota → ResourceList) where
  -- A quota that does not apply, or of which every limit has room for the requests beside the usage.
  abbrev pub has_room : Text → ResourceList → Quota → Bool
  has_room ns requests quota =
      not (quota_applies ns quota)
      || allb (within_limit env (project env (usage quota) requests)) (hard_limits quota)

  fits-has_room :
      (ns : Text) (requests : ResourceList) (quotas : List Quota)
      → allb
          (fits env
            (λ q. pure (quota_applies ns q))
            (quota_usage env)
            hard_limits
            requests
            (quota_applies ns)
            usage)
          quotas
        ≡ allb (has_room ns requests) quotas
  fits-has_room ns requests [] = refl
  fits-has_room ns requests (quota ∷ quotas) = ground (
    arith,
    fits-has_room ns requests quotas,
    is_exceeded-allb env (project env (usage quota) requests) (hard_limits quota),
  )

  validate_against_quotas_lem :
      (ns : Text) (requests : ResourceList) (quotas : List Quota) (tr : Trace)
      → env.quotas_at tr ≡ ok quotas
      → ((quota : Quota) (at : Trace) → (quota_usage env quota at).0 ≡ some (ok (usage quota)))
      → (failure : Option Error) × ((validate_against_quotas env ns requests tr).0 ≡ some failure)
        × (is_some failure ≡ not (allb (has_room ns requests) quotas))
  unfolding validate_against_quotas
  validate_against_quotas_lem ns requests quotas tr listed steady =
      let (failure, run, exact) =
        check_projected-fits env (λ q. pure (quota_applies ns q)) (quota_usage env) hard_limits
          requests (quota_applies ns) usage (λ q at. refl) steady quotas (list_quotas ∷ tr) in
      (failure, ground (arith, run), exact ∙ ap not (fits-has_room ns requests quotas))

  validate_create_decides :
      (order : Order) (tr : Trace) (failure : Option Error)
      → (validate_against_quotas env order.meta.namespace (resource_requests env order) tr).0
        ≡ some failure
      → (v : Verdict) × ((validate_create env order tr).0 ≡ some v)
        × (is_some v.error ≡ (is_some failure || is_some (validate_spec env order).error))
  unfolding validate_create
  validate_create_decides order tr failure run =
      elim (Option-cases (validate_create env order tr).0) [
        | inl never ↦ absurd (ground arith)
        | inr (v, made) ↦ (v, made, ground arith)
      ]

  -- Where the usage of the quotas does not change while it is counted, a new order is refused exactly
  -- when a quota that applies to its namespace has a limit that the usage and the requests of the
  -- order together exceed, or when its specification has an error.
  pub validate_create_lem :
      (order : Order) (quotas : List Quota) (tr : Trace)
      → env.quotas_at tr ≡ ok quotas
      → ((quota : Quota) (at : Trace) → (quota_usage env quota at).0 ≡ some (ok (usage quota)))
      → (v : Verdict) × ((validate_create env order tr).0 ≡ some v)
        × (is_some v.error
            ≡ not (
                allb (has_room order.meta.namespace (resource_requests env order)) quotas
                && not (is_some (validate_spec env order).error)))
  validate_create_lem order quotas tr listed steady =
      let requests = resource_requests env order in
      let (failure, run, exact) =
        validate_against_quotas_lem order.meta.namespace requests quotas tr listed steady in
      let (v, made, either) = validate_create_decides order tr failure run in
      let free = allb (has_room order.meta.namespace requests) quotas in
      (
        v,
        made,
        either ∙ ap (λ b. b || is_some (validate_spec env order).error) exact ∙ de_morgan free _,
      )
