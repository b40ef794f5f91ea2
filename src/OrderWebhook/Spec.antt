-- ===== src/OrderWebhook/Spec.antt =====
-- internal/webhook/v1alpha1/order_webhook.go: validateOrderSpec, validateTicketTemplate,
-- validateResources and validateImmutableFields.
use korder.Prelude.{
  Bool, false, ◌&&◌, Option, none, some, List, [], ◌∷◌, ◌++◌, if◌then◌else◌, is_empty, get_or,
  length, ◌==◌,
}
use korder.Prelude.Int.{ℤ, pos, ltb_ℤ}
use korder.Prelude.Text.{Text, codes, text_eq}
use korder.Api.Meta.{ResourceRequirements, LabelSelector}
use korder.Api.Ticket.{TicketSpec, WindowSpec}
use korder.Api.Order.{Order, OrderSpec, RefreshPolicy}
use korder.Client.{Cluster, Error, other, ok, err}
use korder.TicketWebhook.Resources.{first_error_in, above_limit, either_error}
use korder.TicketWebhook.Spec.{Verdict, accept, reject, prefixed, check_lifecycle}

unfoldable pub check_duration : Cluster → Text → Option Error
check_duration env [] = none
check_duration env (c ∷ d) = elim (env.parse_duration (c ∷ d)) [
  | err e ↦ some (prefixed (codes "invalid window duration format: ") e)
  | ok z ↦ none
]

unfoldable pub check_start : Cluster → Option Text → Option Error
check_start env none = none
check_start env (some []) = none
check_start env (some (c ∷ s)) = elim (env.parse_time (c ∷ s)) [
  | err e ↦ some (prefixed (codes "invalid start time format, must be RFC3339: ") e)
  | ok start ↦ none
]

unfoldable pub check_window : Cluster → Option WindowSpec → Option Error
unfolding check_duration check_start
check_window env none = none
check_window env (some w) =
    either_error (check_duration env w.duration) (check_start env w.start_time)

-- validateResources, with the error of validateTicketTemplate; a map that is nil is read as an empty
-- one.
unfoldable pub check_resources : Cluster → Option ResourceRequirements → Option Error
check_resources env none = none
check_resources env (some r) =
    elim (first_error_in (above_limit env (get_or r.limits [])) (get_or r.requests [])) [
      | none ↦ none
      | some e ↦ some (prefixed (codes "resource validation failed: ") e)
    ]

-- validateTicketTemplate
unfoldable pub validate_template : Cluster → TicketSpec → Option Error
unfolding check_window check_lifecycle check_resources
validate_template env spec =
    either_error (check_window env spec.window)
      (either_error (check_lifecycle spec.lifecycle) (check_resources env spec.resources))

unfoldable pub is_below_zero : Option ℤ → Bool
is_below_zero none = false
is_below_zero (some z) = ltb_ℤ z (pos 0)

replica_warnings : OrderSpec → List Text
replica_warnings spec =
    if ltb_ℤ (pos 100) (get_or spec.replicas (pos 0))
    then codes "High replica count may impact cluster performance" ∷ []
    else []

unfoldable pub selects_nothing : Option LabelSelector → Bool
selects_nothing none = false
selects_nothing (some s) = is_empty s.match_labels && is_empty s.match_expressions

-- validateOrderSpec
unfoldable pub validate_spec : Cluster → Order → Verdict
unfolding validate_template is_below_zero replica_warnings selects_nothing
validate_spec env order =
    let spec = order.spec in
    let warnings = replica_warnings spec in
    if is_below_zero spec.replicas
    then reject [] (other (codes "replicas cannot be negative"))
    else if is_below_zero spec.min_ready_seconds
    then reject warnings (other (codes "minReadySeconds cannot be negative"))
    else elim (validate_template env spec.template.spec) [
      | some e ↦ reject warnings (prefixed (codes "ticket template validation failed: ") e)
      | none ↦
          if selects_nothing spec.selector
          then reject warnings (other (codes "selector cannot be empty when specified"))
          else accept warnings
    ]

-- The text of a refresh policy.
policy_text : RefreshPolicy → Text
policy_text RefreshPolicy.unset = []
policy_text RefreshPolicy.always = codes "Always"
policy_text RefreshPolicy.on_claim = codes "OnClaim"
policy_text RefreshPolicy.never = codes "Never"
policy_text (RefreshPolicy.other policy) = policy

selector_warnings : Option LabelSelector → Option LabelSelector → List Text
selector_warnings (some old) (some new) =
    if length old.match_labels == length new.match_labels
    then []
    else codes "Changing selector may affect existing tickets" ∷ []
selector_warnings _ _ = []

-- validateImmutableFields, which never returns an error.
unfoldable pub validate_immutable : Order → Order → Verdict
unfolding selector_warnings policy_text
validate_immutable old new = accept (
    selector_warnings old.spec.selector new.spec.selector
    ++ (if text_eq (policy_text old.spec.refresh_policy) (policy_text new.spec.refresh_policy)
        then []
        else codes "Changing refresh policy may affect existing ticket lifecycle" ∷ []))
