-- ===== src/TicketWebhook/Resources.antt =====
-- internal/webhook/v1alpha1/ticket_webhook.go: validateTicketResources and resourcesEqual.
use korder.Prelude.{
  Bool, true, false, ◌&&◌, Option, none, some, [], ◌∷◌, ◌++◌, if◌then◌else◌, get_or, length, ◌==◌,
}
use korder.Prelude.Text.{Text, codes, lookup}
use korder.Api.Meta.{Quantity, ResourceList, ResourceRequirements}
use korder.Client.{Cluster, Error, other}

-- The first error that a loop over the entries of a map returns.
unfoldable pub first_error_in : (Text × Quantity → Option Error) → ResourceList → Option Error
first_error_in check [] = none
first_error_in check (r ∷ rs) = elim (check r) [ some e ↦ some e | none ↦ first_error_in check rs ]

unfoldable pub above_limit : Cluster → ResourceList → Text × Quantity → Option Error
above_limit env limits (name, q) = elim (lookup name limits) [
  | none ↦ none
  | some limit ↦
      if env.exceeds q limit
      then some (other (codes "resource request for " ++ name ++ codes " exceeds limit"))
      else none
]

unfoldable pub below_zero : Cluster → Text → Text × Quantity → Option Error
below_zero env what (name, q) =
    if env.is_negative q
    then some
        (other (codes "resource " ++ what ++ codes " for " ++ name ++ codes " cannot be negative"))
    else none

abbrev pub either_error : Option Error → Option Error → Option Error
either_error (some e) rest = some e
either_error none rest = rest

-- validateTicketResources; a map that is nil is read as an empty one.
unfoldable pub validate_resources : Cluster → ResourceRequirements → Option Error
unfolding above_limit below_zero
validate_resources env r =
    let requests = get_or r.requests [] in
    let limits = get_or r.limits [] in
    either_error (first_error_in (above_limit env limits) requests) (
      either_error (first_error_in (below_zero env (codes "request")) requests)
        (first_error_in (below_zero env (codes "limit")) limits))

same_entries : Cluster → ResourceList → ResourceList → Bool
same_entries env [] new = true
same_entries env ((name, q) ∷ old) new = elim (lookup name new) [
  | none ↦ false
  | some q' ↦ env.same_quantity q q' && same_entries env old new
]

-- resourcesEqual
pub resources_equal : Cluster → ResourceRequirements → ResourceRequirements → Bool
unfolding same_entries
resources_equal env old new =
    let old_requests = get_or old.requests [] in
    let new_requests = get_or new.requests [] in
    let old_limits = get_or old.limits [] in
    let new_limits = get_or new.limits [] in
    length old_requests == length new_requests
    && length old_limits == length new_limits
    && same_entries env old_requests new_requests
    && same_entries env old_limits new_limits
