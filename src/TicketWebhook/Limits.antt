-- ===== src/TicketWebhook/Limits.antt =====
-- The resources of a ticket: what the validation accepts, as a statement about each entry.
use korder.Prelude.{
  ◌≡◌, refl, Bool, true, not, ◌&&◌, Option, none, some, [], ◌∷◌, arith, is_some, get_or, allb,
}
use korder.Prelude.Text.{Text, codes, lookup}
use korder.Api.Meta.{Quantity, ResourceList, ResourceRequirements}
use korder.Client.{Cluster, Error}
use korder.TicketWebhook.Resources.{first_error_in, above_limit, below_zero, validate_resources}

-- No error in a loop, where the check of an entry agrees with a test.
pub first_error_in-allb :
    (check : Text × Quantity → Option Error) (test : Text × Quantity → Bool)
    → ((r : Text × Quantity) → is_some (check r) ≡ not (test r))
    → (rs : ResourceList) → is_some (first_error_in check rs) ≡ not (allb test rs)
unfolding first_error_in
first_error_in-allb check test agree [] = refl
first_error_in-allb check test agree (r ∷ rs) =
    ground (arith, agree r, first_error_in-allb check test agree rs)

-- The entry is within the limit of the same name, if there is one.
abbrev pub within : Cluster → ResourceList → Text × Quantity → Bool
within env limits (name, q) = elim (lookup name limits) [
  | none ↦ true
  | some limit ↦ not (env.exceeds q limit)
]

abbrev pub not_negative : Cluster → Text × Quantity → Bool
not_negative env (name, q) = not (env.is_negative q)

above_limit-within :
    (env : Cluster) (limits : ResourceList) (r : Text × Quantity)
    → is_some (above_limit env limits r) ≡ not (within env limits r)
unfolding above_limit
above_limit-within env limits (name, q) = ground arith

below_zero-not_negative :
    (env : Cluster) (what : Text) (r : Text × Quantity)
    → is_some (below_zero env what r) ≡ not (not_negative env r)
unfolding below_zero
below_zero-not_negative env what (name, q) = ground arith

-- The resources are refused exactly when a request exceeds the limit of its name, or a request or a
-- limit is negative.
pub validate_resources_lem :
    (env : Cluster) (r : ResourceRequirements)
    → is_some (validate_resources env r)
      ≡ not (
          allb (within env (get_or r.limits [])) (get_or r.requests [])
          && allb (not_negative env) (get_or r.requests [])
          && allb (not_negative env) (get_or r.limits []))
unfolding validate_resources
validate_resources_lem env r =
    let requests = get_or r.requests [] in
    let limits = get_or r.limits [] in
    ground (
      arith,
      first_error_in-allb (above_limit env limits) (within env limits)
          (above_limit-within env limits) requests,
      first_error_in-allb (below_zero env (codes "request")) (not_negative env)
          (below_zero-not_negative env (codes "request")) requests,
      first_error_in-allb (below_zero env (codes "limit")) (not_negative env)
          (below_zero-not_negative env (codes "limit")) limits,
    )
