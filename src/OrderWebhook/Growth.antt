-- ===== src/OrderWebhook/Growth.antt =====
-- Which growth of an order the quotas admit.
use korder.Prelude.{
  ◌≡◌, refl, ◌∙◌, ap, ap₂, ◌<◌, ℕ, Bool, true, false, none, some, List, [], ◌∷◌, arith, anyb,
  is_some, get_or, length, get_elem?, inl, inr, Option-cases, Bool-cases,
}
use korder.Prelude.Int.{pos, scale, ◌+ℤ◌, ◌-ℤ◌, ◌≤ℤ◌, ◌<ℤ◌, scale_lt, -ℤ_parts}
use korder.Prelude.Text.{Text, codes, text_eq, text_eq_iff, lookup}
use korder.Api.Meta.{Quantity, ResourceList}
use korder.Api.Order.{Order}
use korder.Api.Quota.{Quota}
use korder.Client.{Cluster, Trace, ok}
use korder.TicketWebhook.Spec.{Verdict}
use korder.OrderWebhook.Spec.{validate_immutable}
use korder.OrderWebhook.Quotas.{
  Scoped, resources_in_scope, quota_applies, hard_limits, validate_against_quotas,
  resource_requests, deltas, validate_growth,
}
use korder.OrderWebhook.Validator.{validate_update}
use korder.OrderWebhook.Requests.{resource_requests-IsMap, lookup-resource_requests}
use korder.OrderWebhook.Admission.{tickets_fit}
use korder.Usage.Maps.{IsMap}
use korder.Usage.Measure.{IsMeasured, sum_at, +ℤ-zero}

module _ (env : Cluster) (measured : IsMeasured env) where
  sum_at-deltas_missing :
      (name : Text) (old new : ResourceList)
      → lookup name new ≡ none
      → sum_at env measured name (deltas env old new) ≡ pos 0
  unfolding deltas sum_at lookup
  sum_at-deltas_missing name old [] h = refl
  sum_at-deltas_missing name old ((n, q) ∷ new) h = elim (Option-cases (lookup n old)) [
    | inl missing ↦ ground (arith, sum_at-deltas_missing name old new)
    | inr (was, found) ↦ ground (arith, sum_at-deltas_missing name old new)
  ]

  zero_measure : (q : Quantity) → env.is_zero q ≡ true → measured.measure q ≡ pos 0
  zero_measure q h = ground (arith, measured.is_zero_lem q)

  -- The differences of a name that both maps have add up to the difference of its quantities.
  sum_at-deltas :
      (name : Text) (old new : ResourceList) (q was : Quantity)
      → IsMap new
      → lookup name new ≡ some q
      → lookup name old ≡ some was
      → sum_at env measured name (deltas env old new) ≡ measured.measure (env.sub_quantity q was)
  unfolding deltas sum_at lookup IsMap
  sum_at-deltas name old [] q was h asked had = cc
  sum_at-deltas name old ((n, r) ∷ new) q was (fresh, h) asked had =
      elim (Bool-cases (text_eq n name)) [
        | inl this ↦ ground (
          arith,
          text_eq_iff n name,
          sum_at-deltas_missing name old new,
          zero_measure (env.sub_quantity q was),
          +ℤ-zero (measured.measure (env.sub_quantity q was)),
        )
        | inr another ↦ elim (Option-cases (lookup n old)) [
          | inl missing ↦ ground (arith, sum_at-deltas name old new q was h)
          | inr (w, found) ↦ ground (arith, sum_at-deltas name old new q was h)
        ]
      ]

  -- A difference that is not zero is among the differences.
  lookup-deltas :
      (name : Text) (old new : ResourceList) (q was : Quantity)
      → lookup name new ≡ some q
      → lookup name old ≡ some was
      → env.is_zero (env.sub_quantity q was) ≡ false
      → lookup name (deltas env old new) ≡ some (env.sub_quantity q was)
  unfolding deltas lookup
  lookup-deltas name old [] q was asked had differs = cc
  lookup-deltas name old ((n, r) ∷ new) q was asked had differs =
      elim (Option-cases (lookup n old)) [
        | inl missing ↦ ground (arith, text_eq_iff n name, lookup-deltas name old new q was)
        | inr (w, found) ↦ ground (arith, text_eq_iff n name, lookup-deltas name old new q was)
      ]

  abbrev grows : Text × Quantity → Bool
  grows r = env.is_positive r.1

  anyb-grows :
      (name : Text) (rs : ResourceList) (q : Quantity)
      → lookup name rs ≡ some q
      → env.is_positive q ≡ true
      → anyb grows rs ≡ true
  unfolding lookup
  anyb-grows name [] q found positive = cc
  anyb-grows name ((n, r) ∷ rs) q found positive = ground (arith, anyb-grows name rs q)

  growth_checked :
      (old new : Order) (tr : Trace) (v : Verdict)
      → (validate_update env old new tr).0 ≡ some v
      → v.error ≡ none
      → anyb grows (deltas env (resource_requests env old) (resource_requests env new)) ≡ true
      → (validate_against_quotas env new.meta.namespace
          (deltas env (resource_requests env old) (resource_requests env new))
          tr).0
        ≡ some none
  unfolding validate_update validate_growth validate_immutable
  growth_checked old new tr v made accepted grown =
      let requests = deltas env (resource_requests env old) (resource_requests env new) in
      elim (Option-cases (validate_against_quotas env new.meta.namespace requests tr).0) [
        | inl never ↦ absurd (ground arith)
        | inr (none, passed) ↦ passed
        | inr (some e, failed) ↦ absurd (ground arith)
      ]

  -- An order is updated to more replicas only if, for each quota that applies to its namespace and
  -- limits the tickets, the tickets that the server lists in the scope of the quota and the replicas
  -- that are added are within the limit. Quantities follow the laws of `IsMeasured`, with a unit above
  -- zero.
  pub validate_update-tickets :
      (old new : Order) (quotas : List Quota) (i : ℕ) (quota : Quota) (limit : Quantity)
      (tr : Trace) (v : Verdict)
      → 0 < measured.unit
      → get_or old.spec.replicas (pos 1) <ℤ get_or new.spec.replicas (pos 1)
      → env.quotas_at tr ≡ ok quotas
      → (validate_update env old new tr).0 ≡ some v
      → v.error ≡ none
      → get_elem? quotas i ≡ some quota
      → quota_applies new.meta.namespace quota ≡ true
      → lookup (codes "tickets") (hard_limits quota) ≡ some limit
      → (at : Trace) × (both : Scoped) × ((resources_in_scope env quota at).0 ≡ some (ok both))
        × (scale measured.unit (pos (length both.1))
              +ℤ (scale measured.unit (get_or new.spec.replicas (pos 1))
                  -ℤ scale measured.unit (get_or old.spec.replicas (pos 1)))
            ≤ℤ measured.measure limit)
  validate_update-tickets old new quotas i quota limit tr v whole more listed made accepted here
        applies limited =
      let was = get_or old.spec.replicas (pos 1) in
      let is = get_or new.spec.replicas (pos 1) in
      let before = resource_requests env old in
      let after = resource_requests env new in
      let delta = env.sub_quantity (env.new_quantity is) (env.new_quantity was) in
      let (old_orders, had) = lookup-resource_requests env old in
      let (new_orders, asked) = lookup-resource_requests env new in
      let amount : measured.measure delta ≡ scale measured.unit is -ℤ scale measured.unit was =
        measured.sub_quantity_lem (env.new_quantity is) (env.new_quantity was)
        ∙ ap₂ ◌-ℤ◌ (measured.new_quantity_lem is) (measured.new_quantity_lem was) in
      let above : pos 0 <ℤ measured.measure delta = ground (
        arith,
        amount,
        scale_lt measured.unit was is whole more,
        -ℤ_parts (scale measured.unit is) (scale measured.unit was),
      ) in
      let positive : env.is_positive delta ≡ true =
        ground (arith, measured.is_positive_lem delta) in
      let differs : env.is_zero delta ≡ false = ground (arith, measured.is_zero_lem delta) in
      let entry =
        lookup-deltas (codes "tickets") before after (env.new_quantity is) (env.new_quantity was)
          asked had differs in
      let grown = anyb-grows (codes "tickets") (deltas env before after) delta entry positive in
      let passed = growth_checked old new tr v made accepted grown in
      let (at, both, scoped, fit) =
        tickets_fit env measured new.meta.namespace (deltas env before after) quotas i quota limit
          tr listed passed here applies limited (ap is_some entry) in
      let sum =
        sum_at-deltas (codes "tickets") before after (env.new_quantity is) (env.new_quantity was)
          (resource_requests-IsMap env new) asked had in
      (at, both, scoped, ground (arith, fit, sum, amount))
