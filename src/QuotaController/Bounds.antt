-- ===== src/QuotaController/Bounds.antt =====
-- Which requests the reconciler's validation lets pass.
use korder.Prelude.{
  ◌≡◌, ℕ, true, none, some, List, ◌∷◌, arith, All, is_some, get_elem?, All-get_elem?, inl, inr,
}
use korder.Prelude.Int.{◌+ℤ◌, ◌≤ℤ◌}
use korder.Prelude.Text.{Text, lookup}
use korder.Api.Meta.{Quantity, ResourceList}
use korder.Api.Quota.{Quota}
use korder.Client.{Cluster, ok, Trace, list_quotas}
use korder.QuotaController.Count.{resource_usage}
use korder.QuotaController.Validate.{quota_applies, limits_of, validate_quota}
use korder.Usage.Measure.{IsMeasured, amount_at, sum_at, project-within}
use korder.Usage.Within.{Kept, check_projected-Kept}

module _ (env : Cluster) (measured : IsMeasured env) where
  abbrev Passes : Text → ResourceList → Quota → Type 0
  Passes ns requests = Kept env (quota_applies env ns) (resource_usage env) (limits_of env) requests

  validate_quota-Passes :
      (ns : Text) (requests : ResourceList) (quotas : List Quota) (tr : Trace)
      → env.quotas_at tr ≡ ok quotas
      → (validate_quota env ns requests tr).0 ≡ some none
      → All (Passes ns requests) quotas
  unfolding validate_quota
  validate_quota-Passes ns requests quotas tr listed passed =
      check_projected-Kept env (quota_applies env ns) (resource_usage env) (limits_of env) requests
        quotas (list_quotas ∷ tr) (ground arith)

  -- Where ValidateQuota lets requests pass, each quota that applies to the namespace has, under each
  -- requested name that it limits at present, room for all that is requested beside a usage that was
  -- counted for it. Quantities follow the laws of `IsMeasured`.
  pub validate_quota-within :
      (ns : Text) (requests : ResourceList) (quotas : List Quota) (i : ℕ) (quota : Quota)
      (name : Text) (limit : Quantity) (tr : Trace)
      → env.quotas_at tr ≡ ok quotas
      → (validate_quota env ns requests tr).0 ≡ some none
      → get_elem? quotas i ≡ some quota
      → ((at : Trace) → (quota_applies env ns quota at).0 ≡ some true)
      → lookup name (limits_of env quota) ≡ some limit
      → is_some (lookup name requests) ≡ true
      → (at : Trace) × (usage : ResourceList) × ((resource_usage env quota at).0 ≡ some (ok usage))
        × (amount_at env measured name usage +ℤ sum_at env measured name requests
            ≤ℤ measured.measure limit)
  unfolding Kept
  validate_quota-within ns requests quotas i quota name limit tr listed passed here applies limited
        asked =
      let kept = validate_quota-Passes ns requests quotas tr listed passed in
      let (at, either) = All-get_elem? (Passes ns requests) quotas i quota kept here in
      elim either [
        | inl skipped ↦ absurd (ground (arith, applies at))
        | inr (usage, counted, fine) ↦ (
          at,
          usage,
          counted,
          project-within env measured usage requests (limits_of env quota) name limit fine limited
              asked,
        )
      ]
