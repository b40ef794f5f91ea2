-- ===== src/OrderWebhook/Updates.antt =====
-- Which updates of an order the quotas see.
use korder.Prelude.{◌≡◌, refl, true, false, none, some, [], ◌∷◌, arith, get_or}
use korder.Prelude.Int.{ℤ, pos, ◌≤ℤ◌, -ℤ_parts, scale_le}
use korder.Prelude.Text.{insert, text_eq}
use korder.Api.Meta.{ResourceList}
use korder.Api.Order.{Order}
use korder.Client.{Cluster, Trace}
use korder.TicketWebhook.Spec.{accept}
use korder.OrderWebhook.Spec.{validate_immutable}
use korder.OrderWebhook.Quotas.{resource_requests, deltas, validate_growth}
use korder.OrderWebhook.Validator.{validate_update}
use korder.OrderWebhook.Requests.{
  AreFound, IsMap-AreFound, resource_requests-IsMap, resource_requests-same, resource_requests-bare,
  lookup-resource_requests, counts,
}
use korder.Usage.Measure.{IsMeasured}

module _ (env : Cluster) (measured : IsMeasured env) where
  is_zero_self : (q : _) → env.is_zero (env.sub_quantity q q) ≡ true
  is_zero_self q = ground (
    arith,
    measured.is_zero_lem (env.sub_quantity q q),
    measured.sub_quantity_lem q q,
    -ℤ_parts (measured.measure q) (measured.measure q),
  )

  deltas-AreFound : (old new : ResourceList) → AreFound old new → deltas env old new ≡ []
  unfolding deltas AreFound
  deltas-AreFound old [] h = refl
  deltas-AreFound old ((name, q) ∷ new) (found, h) =
      ground (arith, is_zero_self q, deltas-AreFound old new h)

  -- An update that keeps the replicas and the template is accepted without a call: whatever the
  -- quotas have become, an order can be given a finalizer or a deletion, or be paused. Quantities
  -- follow the laws of `IsMeasured`.
  pub validate_update-same :
      (old new : Order) (tr : Trace)
      → old.spec.replicas ≡ new.spec.replicas
      → old.spec.template ≡ new.spec.template
      → validate_update env old new tr ≡ (some (accept []), tr)
  unfolding validate_update validate_growth validate_immutable
  validate_update-same old new tr replicas template = ground (
    arith,
    resource_requests-same env old new replicas template,
    deltas-AreFound (resource_requests env new) (resource_requests env new)
        (IsMap-AreFound (resource_requests env new) (resource_requests-IsMap env new)),
  )

  shrinks :
      (a b : ℤ)
      → a ≤ℤ b
      → env.is_positive (env.sub_quantity (env.new_quantity a) (env.new_quantity b)) ≡ false
  shrinks a b h =
      let was = measured.measure (env.new_quantity b) in
      let is = measured.measure (env.new_quantity a) in
      ground (
        arith,
        measured.is_positive_lem (env.sub_quantity (env.new_quantity a) (env.new_quantity b)),
        measured.sub_quantity_lem (env.new_quantity a) (env.new_quantity b),
        measured.new_quantity_lem a,
        measured.new_quantity_lem b,
        -ℤ_parts is was,
        scale_le measured.unit a b h,
      )

  -- An update to no more replicas, of a template without resources, is accepted without a call:
  -- the validation of the specification is not part of an update.
  pub validate_update-shrinks :
      (old new : Order) (tr : Trace)
      → get_or new.spec.replicas (pos 1) ≤ℤ get_or old.spec.replicas (pos 1)
      → new.spec.template.spec.resources ≡ none
      → validate_update env old new tr ≡ (some (accept []), tr)
  unfolding validate_update validate_growth validate_immutable deltas counts insert text_eq
  validate_update-shrinks old new tr fewer bare =
      let (orders, tickets) = lookup-resource_requests env old in
      let a = get_or new.spec.replicas (pos 1) in
      let b = get_or old.spec.replicas (pos 1) in
      let grown = env.sub_quantity (env.new_quantity a) (env.new_quantity b) in
      ground (
        arith,
        orders,
        tickets,
        resource_requests-bare env new bare,
        is_zero_self (env.new_quantity (pos 1)),
        shrinks a b fewer,
      )
