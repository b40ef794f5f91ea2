-- ===== src/QuotaWebhook/Defaults.antt =====
-- The defaults of a quota.
use korder.Prelude.{
  ◌≡◌, refl, true, false, [], ◌∷◌, arith, is_empty, is_some, inl, inr, Bool-cases, get_or,
}
use korder.Prelude.Int.{pos}
use korder.Prelude.Text.{Text, codes, lookup, lookup-insert, text_eq_refl}
use korder.Api.Meta.{ResourceList}
use korder.Api.Quota.{Quota, QuotaScopeType}
use korder.Client.{Cluster}
use korder.QuotaWebhook.Defaulter.{default, default_kind, default_limits, default_duration}

default_kind_idem : (k : QuotaScopeType) → default_kind (default_kind k) ≡ default_kind k
unfolding default_kind
default_kind_idem QuotaScopeType.unset = refl
default_kind_idem QuotaScopeType.cluster = refl
default_kind_idem QuotaScopeType.namespace_selector = refl
default_kind_idem QuotaScopeType.namespace_list = refl
default_kind_idem QuotaScopeType.object_selector = refl
default_kind_idem (QuotaScopeType.other k) = refl

lookup_some-empty : (k : Text) (m : ResourceList) → is_some (lookup k m) ≡ true → is_empty m ≡ false
unfolding lookup
lookup_some-empty k [] h = cc
lookup_some-empty k (p ∷ m) h = refl

duration_given :
    (env : Cluster) (m : ResourceList)
    → is_some (lookup (codes "max-duration") (default_duration env m)) ≡ true
unfolding default_duration
duration_given env m = elim (Bool-cases (is_some (lookup (codes "max-duration") m))) [
  | inl given ↦ ground arith
  | inr missing ↦ ground (
    arith,
    lookup-insert (codes "max-duration") (codes "max-duration") (env.new_quantity (pos 604800)) m,
    text_eq_refl (codes "max-duration"),
  )
]

-- Limits with a duration need no default.
limits_settled :
    (env : Cluster) (m : ResourceList)
    → is_some (lookup (codes "max-duration") m) ≡ true
    → default_duration env (default_limits env m) ≡ m
unfolding default_duration default_limits
limits_settled env m given = ground (arith, lookup_some-empty (codes "max-duration") m given)

-- The defaults of a quota are given once: a quota with its defaults is left as it is.
pub default_idem :
    (env : Cluster) (quota : Quota) → default env (default env quota) ≡ default env quota
unfolding default
default_idem env quota =
    let limits = default_limits env (get_or quota.spec.hard []) in
    rw (
      default_kind_idem quota.spec.scope.kind,
      limits_settled env (default_duration env limits) (duration_given env limits),
    )
