-- ===== src/QuotaWebhook/Defaulter.antt =====
-- internal/webhook/v1alpha1/quota_webhook.go: QuotaCustomDefaulter.
use korder.Prelude.{some, [], if◌then◌else◌, is_empty, is_some, get_or}
use korder.Prelude.Int.{pos}
use korder.Prelude.Text.{codes, lookup, insert}
use korder.Api.Meta.{ResourceList}
use korder.Api.Quota.{Quota, QuotaScopeType}
use korder.Client.{Cluster}

unfoldable pub default_kind : QuotaScopeType → QuotaScopeType
default_kind QuotaScopeType.unset = QuotaScopeType.cluster
default_kind kind = kind

-- The limits of a quota that has none.
unfoldable pub default_limits : Cluster → ResourceList → ResourceList
default_limits env hard =
    if is_empty hard
    then insert (codes "reserved.memory") (env.must_parse (codes "2000Gi")) (
        insert (codes "reserved.cpu") (env.must_parse (codes "1000")) (
          insert (codes "tickets") (env.new_quantity (pos 1000))
            (insert (codes "orders") (env.new_quantity (pos 100)) [])))
    else hard

-- The limit of the duration is 7 days in seconds.
unfoldable pub default_duration : Cluster → ResourceList → ResourceList
default_duration env hard =
    if is_some (lookup (codes "max-duration") hard)
    then hard
    else insert (codes "max-duration") (env.new_quantity (pos 604800)) hard

-- QuotaCustomDefaulter.Default
unfoldable pub default : Cluster → Quota → Quota
unfolding default_kind default_limits default_duration
default env quota = record quota {
  spec = record quota.spec {
    scope = record quota.spec.scope { kind = default_kind quota.spec.scope.kind };
    hard = some (default_duration env (default_limits env (get_or quota.spec.hard [])));
  };
}
