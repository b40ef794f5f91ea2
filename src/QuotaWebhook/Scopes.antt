-- ===== src/QuotaWebhook/Scopes.antt =====
-- The scopes of the quotas that the validator admits.
use korder.Prelude.{
  ◌≡◌, Bool, true, false, not, ◌&&◌, none, some, List, [], ◌∷◌, arith, anyb, is_some, is_empty, inl,
  inr, Option-cases,
}
use korder.Prelude.Text.{codes, text_eq_refl}
use korder.Api.Quota.{Quota, QuotaScopeType}
use korder.Client.{Cluster, ok, Trace}
use korder.TicketWebhook.Spec.{Verdict}
use korder.QuotaWebhook.Spec.{kind_text, validate_spec, validate_scope}
use korder.QuotaWebhook.Validator.{
  is_cluster, is_self, first_conflict, validate_no_conflict, validate_create, validate_immutable,
  validate_update,
}

-- Another quota than the given one, with the scope of the cluster.
abbrev pub rivals : Quota → Quota → Bool
rivals quota existing = not (is_self quota existing) && is_cluster existing.spec.scope.kind

first_conflict-rivals :
    (quota : Quota) (quotas : List Quota)
    → is_some (first_conflict quota quotas)
      ≡ (is_cluster quota.spec.scope.kind && anyb (rivals quota) quotas)
unfolding first_conflict
first_conflict-rivals quota [] = ground arith
first_conflict-rivals quota (existing ∷ rest) = ground (arith, first_conflict-rivals quota rest)

-- A quota of the cluster is created only if the server lists no other quota of the cluster.
pub validate_create-rivals :
    (env : Cluster) (quota : Quota) (quotas : List Quota) (tr : Trace) (v : Verdict)
    → env.quotas_at tr ≡ ok quotas
    → is_cluster quota.spec.scope.kind ≡ true
    → (validate_create env quota tr).0 ≡ some v
    → v.error ≡ none
    → anyb (rivals quota) quotas ≡ false
unfolding validate_create validate_no_conflict
validate_create-rivals env quota quotas tr v listed cluster made accepted =
    ground (arith, first_conflict-rivals quota quotas)

-- A list of namespaces with an empty name is refused for a new quota and accepted in an update, where
-- the rest of the specification is in order and the scope's type stays: an update does not check the
-- scope.
pub validate_update-skips_scope :
    (env : Cluster) (old new : Quota) (tr : Trace)
    → (validate_spec env new).error ≡ none
    → old.spec.scope.kind ≡ QuotaScopeType.namespace_list
    → new.spec.scope.kind ≡ QuotaScopeType.namespace_list
    → anyb is_empty new.spec.scope.namespaces ≡ true
    → (v : Verdict) × ((validate_create env new tr).0 ≡ some v)
      × (is_some v.error ≡ true)
      × ((validate_update env old new).error ≡ none)
unfolding validate_create validate_scope validate_update validate_immutable kind_text
validate_update-skips_scope env old new tr fine was is bad =
    let updated : (validate_update env old new).error ≡ none =
      ground (arith, text_eq_refl (codes "NamespaceList")) in
    elim (Option-cases (validate_create env new tr).0) [
      | inl never ↦ absurd (ground arith)
      | inr (v, created) ↦ (v, created, ground arith, updated)
    ]
