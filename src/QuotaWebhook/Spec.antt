-- ===== src/QuotaWebhook/Spec.antt =====
-- internal/webhook/v1alpha1/quota_webhook.go: validateQuotaSpec and validateQuotaScope.
use korder.Prelude.{
  ℕ, suc, Bool, not, ◌||◌, Option, none, some, List, [], ◌∷◌, ◌++◌, if◌then◌else◌, is_empty,
  is_some, get_or, anyb,
}
use korder.Prelude.Text.{Text, codes, text_eq, lookup}
use korder.Prelude.Strings.{cut_prefix}
use korder.Prelude.Decimal.{print_ℕ}
use korder.Api.Meta.{Quantity, ResourceList}
use korder.Api.Quota.{Quota, QuotaScope, QuotaScopeType, TimeWindow, QuotaAllocation}
use korder.Client.{Cluster, Error, other}
use korder.TicketWebhook.Resources.{first_error_in, below_zero, either_error}
use korder.TicketWebhook.Spec.{Verdict, accept, reject}

is_known : Text → Bool
is_known name = anyb (text_eq name) (
    codes "orders"
    ∷ codes "tickets"
    ∷ codes "reserved.cpu"
    ∷ codes "reserved.memory"
    ∷ codes "max-duration"
    ∷ [])

unknown_warnings : ResourceList → List Text
unfolding is_known
unknown_warnings [] = []
unknown_warnings ((name, q) ∷ rs) =
    if not (is_known name || is_some (cut_prefix (codes "reserved.") name))
    then (codes "Unknown resource type: " ++ name) ∷ unknown_warnings rs
    else unknown_warnings rs

-- The text of a scope type.
unfoldable pub kind_text : QuotaScopeType → Text
kind_text QuotaScopeType.unset = []
kind_text QuotaScopeType.cluster = codes "Cluster"
kind_text QuotaScopeType.namespace_selector = codes "NamespaceSelector"
kind_text QuotaScopeType.namespace_list = codes "NamespaceList"
kind_text QuotaScopeType.object_selector = codes "ObjectSelector"
kind_text (QuotaScopeType.other kind) = kind

-- The checks of the scope in validateQuotaSpec.
scope_error : QuotaScope → Option Error
unfolding kind_text
scope_error scope = elim scope.kind [
  | QuotaScopeType.unset ↦ some (other (codes "scope type must be specified"))
  | QuotaScopeType.cluster ↦ none
  | QuotaScopeType.namespace_list ↦
      if is_empty scope.namespaces
      then some (other (codes "namespace list scope requires at least one namespace"))
      else none
  | QuotaScopeType.namespace_selector ↦
      if is_some scope.namespace_selector
      then none
      else some (other (codes "namespace selector scope requires namespace selector"))
  | QuotaScopeType.object_selector ↦
      if is_some scope.object_selector
      then none
      else some (other (codes "object selector scope requires object selector"))
  | QuotaScopeType.other kind ↦ some (other (codes "unknown scope type: " ++ kind))
]

window_error : ℕ → TimeWindow → Option Error
window_error i w =
    if is_empty w.name
    then some (other (codes "time window " ++ print_ℕ i ++ codes " must have a name"))
    else if is_empty w.schedule
    then some (other (codes "time window " ++ w.name ++ codes " must have a schedule"))
    else if is_empty w.multiplier
    then some (other (codes "time window " ++ w.name ++ codes " must have a multiplier"))
    else none

check_windows : ℕ → List TimeWindow → Option Error
unfolding window_error
check_windows i [] = none
check_windows i (w ∷ ws) = either_error (window_error i w) (check_windows (suc i) ws)

above_total : Cluster → ResourceList → Text → Text × Quantity → List Text
above_total env hard ns (name, q) = elim (lookup name hard) [
  | none ↦ []
  | some total ↦
      if env.exceeds q total
      then (codes "Allocation for namespace " ++ ns ++ codes " exceeds total quota for " ++ name)
        ∷ []
      else []
]

-- The loop over the limits of an allocation, with the warnings so far.
check_limits : Cluster → ResourceList → ℕ → Text → ResourceList → List Text → Verdict
unfolding above_total
check_limits env hard i ns [] ws = accept ws
check_limits env hard i ns ((name, q) ∷ rs) ws =
    let rest = check_limits env hard i ns rs (ws ++ above_total env hard ns (name, q)) in
    if env.is_negative q
    then reject ws (
        other (
          codes "allocation "
          ++ print_ℕ i
          ++ codes " limit for "
          ++ name
          ++ codes " cannot be negative"))
    else rest

check_allocations : Cluster → ResourceList → ℕ → List QuotaAllocation → List Text → Verdict
unfolding check_limits
check_allocations env hard i [] ws = accept ws
check_allocations env hard i (a ∷ rest) ws =
    let v = check_limits env hard i a.namespace a.limits ws in
    let later = check_allocations env hard (suc i) rest v.warnings in
    if is_empty a.namespace
    then reject ws (other (codes "allocation " ++ print_ℕ i ++ codes " must specify namespace"))
    else if is_some v.error
    then v
    else later

-- validateQuotaSpec
unfoldable pub validate_spec : Cluster → Quota → Verdict
unfolding unknown_warnings scope_error check_windows check_allocations
validate_spec env quota =
    let hard = get_or quota.spec.hard [] in
    let ws = unknown_warnings hard in
    elim (first_error_in (below_zero env (codes "limit")) hard) [
      | some e ↦ reject [] e
      | none ↦
          elim (either_error (scope_error quota.spec.scope)
            (check_windows 0 quota.spec.time_windows)) [
              | some e ↦ reject ws e
              | none ↦ check_allocations env hard 0 quota.spec.allocation ws
            ]
    ]

-- validateQuotaScope
unfoldable pub validate_scope : Quota → Option Error
validate_scope quota = elim quota.spec.scope.kind [
  | QuotaScopeType.namespace_list ↦
      if is_empty quota.spec.scope.namespaces
      then some (other (codes "namespace list scope requires at least one namespace"))
      else if anyb is_empty quota.spec.scope.namespaces
      then some (other (codes "namespace name cannot be empty"))
      else none
  | _ ↦ none
]
