-- ===== src/QuotaWebhook/Validator.antt =====
-- internal/webhook/v1alpha1/quota_webhook.go: QuotaCustomValidator.
use korder.Prelude.{
  Bool, true, false, not, ◌&&◌, Option, none, some, List, [], ◌∷◌, ◌++◌, if◌then◌else◌, is_empty,
  length,
}
use korder.Prelude.Text.{Text, codes, text_eq}
use korder.Prelude.Decimal.{print_ℕ}
use korder.Api.Quota.{Quota, QuotaScopeType}
use korder.Client.{
  Cluster, Error, other, error_text, ok, err, M, pure, ◌>>=◌, find_quotas, find_orders,
  find_tickets, in_namespace,
}
use korder.TicketWebhook.Spec.{Verdict, accept, reject, prefixed}
use korder.QuotaWebhook.Spec.{kind_text, validate_spec, validate_scope}

abbrev pub is_cluster : QuotaScopeType → Bool
is_cluster QuotaScopeType.cluster = true
is_cluster _ = false

abbrev pub is_self : Quota → Quota → Bool
is_self quota existing =
    text_eq existing.meta.name quota.meta.name
    && text_eq existing.meta.namespace quota.meta.namespace

-- quotaScopesConflict
abbrev pub scopes_conflict : Quota → Quota → Bool
scopes_conflict a b = is_cluster a.spec.scope.kind && is_cluster b.spec.scope.kind

-- The loop of validateNoConflictingQuotas.
unfoldable pub first_conflict : Quota → List Quota → Option Error
first_conflict quota [] = none
first_conflict quota (existing ∷ rest) =
    let later = first_conflict quota rest in
    if not (is_self quota existing) && scopes_conflict existing quota
    then some (other (codes "quota scope conflicts with existing quota " ++ existing.meta.name))
    else later

-- validateNoConflictingQuotas
unfoldable pub validate_no_conflict : Cluster → Quota → M (Option Error)
validate_no_conflict env quota = do
  listed ← find_quotas env
  elim listed [ err e ↦ pure (some e) | ok quotas ↦ pure (first_conflict quota quotas) ]

-- QuotaCustomValidator.ValidateCreate
unfoldable pub validate_create : Cluster → Quota → M Verdict
validate_create env quota =
    let v = validate_spec env quota in
    elim v.error [
      | some e ↦
          pure (reject v.warnings (prefixed (codes "quota specification validation failed: ") e))
      | none ↦ elim (validate_scope quota) [
        | some e ↦ pure (reject v.warnings (prefixed (codes "quota scope validation failed: ") e))
        | none ↦ do
          failure ← validate_no_conflict env quota
          elim failure [
            | some e ↦
                pure (reject v.warnings (prefixed (codes "quota conflict validation failed: ") e))
            | none ↦ pure (accept v.warnings)
          ]
      ]
    ]

same_texts : List Text → List Text → Bool
same_texts [] [] = true
same_texts (s ∷ ss) (t ∷ ts) = text_eq s t && same_texts ss ts
same_texts _ _ = false

is_namespace_list : QuotaScopeType → Bool
is_namespace_list QuotaScopeType.namespace_list = true
is_namespace_list _ = false

-- validateQuotaImmutableFields, with stringSlicesEqual
unfoldable pub validate_immutable : Quota → Quota → Verdict
unfolding same_texts is_namespace_list
validate_immutable old new =
    if not (text_eq (kind_text old.spec.scope.kind) (kind_text new.spec.scope.kind))
    then reject [] (other (codes "scope type is immutable"))
    else if is_namespace_list old.spec.scope.kind
        && not (same_texts old.spec.scope.namespaces new.spec.scope.namespaces)
    then accept (codes "Changing namespace list may affect existing resources" ∷ [])
    else accept []

-- QuotaCustomValidator.ValidateUpdate
unfoldable pub validate_update : Cluster → Quota → Quota → Verdict
validate_update env old new =
    let first = validate_immutable old new in
    let v = validate_spec env new in
    elim first.error [
      | some e ↦ reject first.warnings (prefixed (codes "immutable field validation failed: ") e)
      | none ↦ elim v.error [
        | some e ↦
            reject (first.warnings ++ v.warnings)
              (prefixed (codes "quota specification validation failed: ") e)
        | none ↦ accept (first.warnings ++ v.warnings)
      ]
    ]

-- checkQuotaUsage; the tickets of all namespaces are listed.
pub check_usage : Cluster → M (Option Error)
check_usage env = do
  orders ← find_orders env (in_namespace [])
  elim orders [
    | err e ↦ pure (some e)
    | ok os ↦
        if not (is_empty os)
        then pure (
            some
              (other (codes "quota may be in use by " ++ print_ℕ (length os) ++ codes " orders")))
        else (find_tickets env [] [] >>= λ tickets. elim tickets [
          | err e ↦ pure (some e)
          | ok ts ↦
              if not (is_empty ts)
              then pure (
                  some (
                    other
                      (codes "quota may be in use by " ++ print_ℕ (length ts) ++ codes " tickets")))
              else pure none
        ])
  ]

-- QuotaCustomValidator.ValidateDelete
pub validate_delete : Cluster → M Verdict
validate_delete env = do
  usage ← check_usage env
  elim usage [
    | none ↦ pure (accept [])
    | some e ↦ pure (accept ((codes "Quota is currently in use: " ++ error_text e) ∷ []))
  ]
