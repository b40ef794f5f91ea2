-- ===== src/QuotaController/Validate.antt =====
-- internal/controller/quota_controller.go: ValidateQuota and doesQuotaApply.
use korder.Prelude.{Bool, true, false, Option, none, some, [], anyb, get_or}
use korder.Prelude.Text.{Text, text_eq}
use korder.Api.Meta.{ResourceList}
use korder.Api.Quota.{Quota, QuotaScopeType}
use korder.Client.{Cluster, Error, ok, err, M, pure, ◌>>=◌, find_quotas, find_namespace}
use korder.QuotaController.Count.{resource_usage}
use korder.QuotaController.Limits.{current_limits}
use korder.Usage.{check_projected}

-- doesQuotaApply
unfoldable pub quota_applies : Cluster → Text → Quota → M Bool
quota_applies env ns quota =
    let scope = quota.spec.scope in
    elim scope.kind [
      | QuotaScopeType.cluster ↦ pure true
      | QuotaScopeType.namespace_list ↦ pure (anyb (λ n. text_eq n ns) scope.namespaces)
      | QuotaScopeType.namespace_selector ↦ find_namespace env ns >>= λ found. elim found [
        | err e ↦ pure false
        | ok m ↦ elim scope.namespace_selector [
          | none ↦ pure false
          | some selector ↦ elim (env.selector_error selector) [
            | some e ↦ pure false
            | none ↦ pure (env.selects selector m.labels)
          ]
        ]
      ]
      | _ ↦ pure false
    ]

abbrev pub limits_of : Cluster → Quota → ResourceList
limits_of env quota = get_or (current_limits env quota) []

-- ValidateQuota
unfoldable pub validate_quota : Cluster → Text → ResourceList → M (Option Error)
validate_quota env ns requests = do
  listed ← find_quotas env
  elim listed [
    | err e ↦ pure (some e)
    | ok quotas ↦
        check_projected env (quota_applies env ns) (resource_usage env) (limits_of env) requests
          quotas
  ]
