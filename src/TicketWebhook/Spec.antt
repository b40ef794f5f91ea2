-- ===== src/TicketWebhook/Spec.antt =====
-- internal/webhook/v1alpha1/ticket_webhook.go: validateTicketSpec and
-- validateTicketImmutableFields.
use korder.Prelude.{
  Bool, false, not, ◌&&◌, Option, none, some, List, [], ◌∷◌, ◌++◌, if◌then◌else◌, is_empty, is_some,
  get_or,
}
use korder.Prelude.Int.{pos, ltb_ℤ, leb_ℤ}
use korder.Prelude.Text.{Text, codes, text_eq}
use korder.Api.Meta.{ResourceRequirements}
use korder.Api.Ticket.{Ticket, TicketSpec, TicketLifecycle, WindowSpec}
use korder.Client.{Cluster, Error, other, error_text, ok, err, M, pure, ◌>>=◌, now}
use korder.TicketWebhook.Resources.{either_error, validate_resources, resources_equal}

-- Warnings, and an error or nil.
pub record Verdict : Type 0 where
  pub warnings : List Text
  pub error : Option Error

abbrev pub accept : List Text → Verdict
accept ws = record { warnings = ws; error = none }

abbrev pub reject : List Text → Error → Verdict
reject ws e = record { warnings = ws; error = some e }

abbrev pub prefixed : Text → Error → Error
prefixed what e = other (what ++ error_text e)

unfoldable pub check_duration : Cluster → Text → Option Error
check_duration env [] = none
check_duration env (c ∷ d) = elim (env.parse_duration (c ∷ d)) [
  | err e ↦ some (prefixed (codes "invalid window duration format: ") e)
  | ok z ↦ if leb_ℤ z (pos 0) then some (other (codes "window duration must be positive")) else none
]

unfoldable pub check_start : Cluster → Option Text → M Verdict
check_start env none = pure (accept [])
check_start env (some []) = pure (accept [])
check_start env (some (c ∷ s)) = elim (env.parse_time (c ∷ s)) [
  | err e ↦ pure (reject [] (prefixed (codes "invalid start time format, must be RFC3339: ") e))
  | ok start ↦ do
    at_time ← now env
    pure (accept (if ltb_ℤ start at_time then codes "Start time is in the past" ∷ [] else []))
]

unfoldable pub check_window : Cluster → Option WindowSpec → M Verdict
check_window env none = pure (accept [])
check_window env (some w) = elim (check_duration env w.duration) [
  | some e ↦ pure (reject [] e)
  | none ↦ check_start env w.start_time
]

unfoldable pub check_lifecycle : Option TicketLifecycle → Option Error
check_lifecycle none = none
check_lifecycle (some l) = elim l.ttl_seconds_after_finished [
  | none ↦ none
  | some ttl ↦
      if ltb_ℤ ttl (pos 0) then some (other (codes "TTL seconds cannot be negative")) else none
]

unfoldable pub check_resources : Cluster → Option ResourceRequirements → Option Error
check_resources env none = none
check_resources env (some r) = elim (validate_resources env r) [
  | none ↦ none
  | some e ↦ some (prefixed (codes "resource validation failed: ") e)
]

node_warnings : TicketSpec → List Text
node_warnings spec =
    if is_some spec.node_name && not (is_empty (get_or spec.node_selector []))
    then codes "Both nodeName and nodeSelector are specified; nodeName takes precedence" ∷ []
    else []

-- validateTicketSpec
unfoldable pub validate_spec : Cluster → Ticket → M Verdict
unfolding check_lifecycle check_resources node_warnings
validate_spec env t = do
  v ← check_window env t.spec.window
  elim (either_error v.error
      (either_error (check_lifecycle t.spec.lifecycle) (check_resources env t.spec.resources))) [
        | some e ↦ pure (reject v.warnings e)
        | none ↦ pure (accept (v.warnings ++ node_warnings t.spec))
      ]

window_warnings : Option WindowSpec → Option WindowSpec → List Text
window_warnings (some old) (some new) =
    if text_eq old.duration new.duration
    then []
    else codes "Changing window duration may not affect existing guardian pods" ∷ []
window_warnings _ _ = []

resource_warnings : Cluster → Option ResourceRequirements → Option ResourceRequirements → List Text
resource_warnings env (some old) (some new) =
    if resources_equal env old new
    then []
    else codes "Changing resource requirements may not affect existing guardian pods" ∷ []
resource_warnings env _ _ = []

unfoldable pub changes_node : Option Text → Option Text → Bool
changes_node (some old) (some new) = not (text_eq old new)
changes_node _ _ = false

-- validateTicketImmutableFields
unfoldable pub validate_immutable : Cluster → Ticket → Ticket → Verdict
unfolding window_warnings resource_warnings changes_node
validate_immutable env old new =
    let warnings =
      window_warnings old.spec.window new.spec.window
      ++ resource_warnings env old.spec.resources new.spec.resources in
    if changes_node old.spec.node_name new.spec.node_name
    then reject warnings (other (codes "node name cannot be changed once set"))
    else accept warnings
