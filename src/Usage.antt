-- ===== src/Usage.antt =====
-- What internal/controller/quota_controller.go and internal/webhook/v1alpha1/order_webhook.go have
-- in common: a usage, what is requested beside it, and the limits. The entries of a Go map are
-- visited in the order of the association list.
pub mod Measure
pub mod Within
pub mod Maps
pub mod Sample
mod Tests
use korder.Prelude.{
  ℕ, Bool, false, ◌||◌, Option, none, some, List, [], ◌∷◌, ◌++◌, if◌then◌else◌, ltb,
}
use korder.Prelude.Int.{pos}
use korder.Prelude.Text.{Text, codes, lookup, insert}
use korder.Api.Meta.{ResourceList}
use korder.Api.Quota.{Quota}
use korder.Client.{Cluster, Error, other, Reply, ok, err, M, pure, ◌>>=◌}

-- A count is entered only where there is something to count.
unfoldable pub enter_count : Cluster → Text → ℕ → ResourceList → ResourceList
enter_count env name n usage =
    if ltb 0 n then insert name (env.new_quantity (pos n)) usage else usage

-- The projected usage.
unfoldable pub project : Cluster → ResourceList → ResourceList → ResourceList
project env usage [] = usage
project env usage ((name, q) ∷ requests) = elim (lookup name usage) [
  | none ↦ project env (insert name q usage) requests
  | some existing ↦ project env (insert name (env.add_quantity existing q) usage) requests
]

-- isQuotaExceeded
unfoldable pub is_exceeded : Cluster → ResourceList → ResourceList → Bool
is_exceeded env usage [] = false
is_exceeded env usage ((name, limit) ∷ limits) =
    let rest = is_exceeded env usage limits in
    elim (lookup name usage) [ none ↦ rest | some used ↦ env.exceeds used limit || rest ]

-- The loop of validateAgainstQuotas and of ValidateQuota, which differ in the quotas that apply, in
-- what they count and in the limits.
module _ (env : Cluster) (applies : Quota → M Bool) (count : Quota → M (Reply ResourceList))
    (limits : Quota → ResourceList) (requests : ResourceList) where
  unfoldable pub check_projected : List Quota → M (Option Error)
  check_projected [] = pure none
  check_projected (quota ∷ quotas) =
      let rest = check_projected quotas in
      let excess : ResourceList → Error = λ projected. other (
        codes "quota "
        ++ quota.meta.name
        ++ codes " would be exceeded: projected usage "
        ++ env.print_list projected
        ++ codes " exceeds limits "
        ++ env.print_list (limits quota)) in
      applies quota >>= λ applying.
      if applying
      then (count quota >>= λ counted. elim counted [
        | err e ↦ pure (some e)
        | ok usage ↦
            let projected = project env usage requests in
            if is_exceeded env projected (limits quota)
            then pure (some (excess projected))
            else rest
      ])
      else rest
