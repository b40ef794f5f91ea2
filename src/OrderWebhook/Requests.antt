-- ===== src/OrderWebhook/Requests.antt =====
-- What an order asks of the quotas.
use korder.Prelude.{
  ◌≡◌, refl, false, none, some, [], ◌∷◌, ◌++◌, arith, get_or, inl, inr, Option-cases, ◌∙◌,
}
use korder.Prelude.Int.{ℤ, pos, scale, ◌*ℤ◌, wrap64}
use korder.Prelude.Text.{
  Text, codes, text_eq, text_eq_iff, lookup, insert, lookup-insert, text_eq_refl,
}
use korder.Api.Meta.{ResourceList}
use korder.Api.Order.{Order}
use korder.Client.{Cluster}
use korder.OrderWebhook.Quotas.{reserve, resource_requests}
use korder.Usage.Maps.{IsMap, insert-IsMap}
use korder.Usage.Measure.{IsMeasured, sum_at, +ℤ-zero}

-- Each entry of the list is the one that is found under its name.
unfoldable pub AreFound : ResourceList → ResourceList → Type 0
AreFound m [] = Unit
AreFound m ((name, q) ∷ rs) = (lookup name m ≡ some q) × AreFound m rs

AreFound-cons :
    (name : Text) (q : _) (m rs : ResourceList)
    → lookup name rs ≡ none
    → AreFound m rs
    → AreFound ((name, q) ∷ m) rs
unfolding AreFound lookup
AreFound-cons name q m [] new found = tt
AreFound-cons name q m ((n, r) ∷ rs) new (here, found) = (
  ground (arith, text_eq_iff name n, text_eq_iff n name),
  AreFound-cons name q m rs (ground (arith, text_eq_iff n name)) found,
)

pub IsMap-AreFound : (rs : ResourceList) → IsMap rs → AreFound rs rs
unfolding IsMap AreFound lookup
IsMap-AreFound [] h = tt
IsMap-AreFound ((name, q) ∷ rs) (new, h) =
    (ground (arith, text_eq_refl name), AreFound-cons name q rs rs new (IsMap-AreFound rs h))

reserve-IsMap :
    (env : Cluster) (replicas : ℤ) (rs into : ResourceList)
    → IsMap into
    → IsMap (reserve env replicas rs into)
unfolding reserve
reserve-IsMap env replicas [] into h = h
reserve-IsMap env replicas ((name, q) ∷ rs) into h =
    reserve-IsMap env replicas rs _ (insert-IsMap (codes "reserved." ++ name) _ into h)

-- The requests of a template without resources.
unfoldable pub counts : Cluster → ℤ → ResourceList
counts env replicas =
    insert (codes "tickets") (env.new_quantity replicas)
      ((codes "orders", env.new_quantity (pos 1)) ∷ [])

counts-IsMap : (env : Cluster) (replicas : ℤ) → IsMap (counts env replicas)
unfolding counts IsMap lookup
counts-IsMap env replicas = insert-IsMap (codes "tickets") _ _ (refl, tt)

pub resource_requests-IsMap : (env : Cluster) (order : Order) → IsMap (resource_requests env order)
unfolding resource_requests counts
resource_requests-IsMap env order =
    let replicas = get_or order.spec.replicas (pos 1) in
    elim (Option-cases order.spec.template.spec.resources) [
      | inl bare ↦ ground (arith, counts-IsMap env replicas)
      | inr (r, asks) ↦ ground (
        arith,
        reserve-IsMap env replicas (get_or r.requests []) (counts env replicas)
            (counts-IsMap env replicas),
      )
    ]

not_reserved : (n : Text) → text_eq (codes "reserved." ++ n) (codes "tickets") ≡ false
unfolding text_eq
not_reserved n = refl

pub resource_requests-bare :
    (env : Cluster) (order : Order)
    → order.spec.template.spec.resources ≡ none
    → resource_requests env order ≡ counts env (get_or order.spec.replicas (pos 1))
unfolding resource_requests counts
resource_requests-bare env order bare = ground arith

pub resource_requests-same :
    (env : Cluster) (old new : Order)
    → old.spec.replicas ≡ new.spec.replicas
    → old.spec.template ≡ new.spec.template
    → resource_requests env old ≡ resource_requests env new
unfolding resource_requests
resource_requests-same env old new replicas template = ground arith

lookup-reserve :
    (env : Cluster) (name : Text) (replicas : ℤ) (rs into : ResourceList)
    → ((n : Text) → text_eq (codes "reserved." ++ n) name ≡ false)
    → lookup name (reserve env replicas rs into) ≡ lookup name into
unfolding reserve
lookup-reserve env name replicas [] into other = refl
lookup-reserve env name replicas ((n, q) ∷ rs) into other =
    let total = env.set_value q (wrap64 (env.value q *ℤ replicas)) in
    ground (
      arith,
      lookup-reserve env name replicas rs (insert (codes "reserved." ++ n) total into) other,
      lookup-insert (codes "reserved." ++ n) name total into,
      other n,
    )

lookup-counts :
    (env : Cluster) (replicas : ℤ)
    → (lookup (codes "orders") (counts env replicas) ≡ some (env.new_quantity (pos 1)))
      × (lookup (codes "tickets") (counts env replicas) ≡ some (env.new_quantity replicas))
unfolding counts lookup insert text_eq
lookup-counts env replicas = (refl, refl)

pub lookup-resource_requests :
    (env : Cluster) (order : Order)
    → let requests = resource_requests env order in
      (lookup (codes "orders") requests ≡ some (env.new_quantity (pos 1)))
      × (lookup (codes "tickets") requests
          ≡ some (env.new_quantity (get_or order.spec.replicas (pos 1))))
unfolding resource_requests counts text_eq
lookup-resource_requests env order =
    let replicas = get_or order.spec.replicas (pos 1) in
    let (orders, tickets) = lookup-counts env replicas in
    elim (Option-cases order.spec.template.spec.resources) [
      | inl bare ↦ (ground arith, ground arith)
      | inr (r, asks) ↦ (
        ground (
          arith,
          lookup-reserve env (codes "orders") replicas (get_or r.requests []) (counts env replicas)
              (λ n. refl),
        ),
        ground (
          arith,
          lookup-reserve env (codes "tickets") replicas (get_or r.requests []) (counts env replicas)
              (λ n. refl),
        ),
      )
    ]

module _ (env : Cluster) (measured : IsMeasured env) where
  sum_at-insert :
      (n name : Text) (q : _) (rs : ResourceList)
      → text_eq n name ≡ false
      → sum_at env measured name (insert n q rs) ≡ sum_at env measured name rs
  unfolding sum_at insert
  sum_at-insert n name q [] h = ground arith
  sum_at-insert n name q ((m, r) ∷ rs) h =
      ground (arith, sum_at-insert n name q rs h, text_eq_iff m n)

  sum_at-reserve :
      (name : Text) (replicas : ℤ) (rs into : ResourceList)
      → ((n : Text) → text_eq (codes "reserved." ++ n) name ≡ false)
      → sum_at env measured name (reserve env replicas rs into) ≡ sum_at env measured name into
  unfolding reserve
  sum_at-reserve name replicas [] into other = refl
  sum_at-reserve name replicas ((n, q) ∷ rs) into other =
      sum_at-reserve name replicas rs _ other
      ∙ sum_at-insert (codes "reserved." ++ n) name _ into (other n)

  sum_at-counts :
      (replicas : ℤ)
      → sum_at env measured (codes "tickets") (counts env replicas) ≡ scale measured.unit replicas
  unfolding sum_at counts insert text_eq
  sum_at-counts replicas =
      +ℤ-zero (measured.measure (env.new_quantity replicas)) ∙ measured.new_quantity_lem replicas

  -- An order asks for as many tickets as it has replicas, one where it names none.
  pub sum_at-resource_requests :
      (order : Order)
      → sum_at env measured (codes "tickets") (resource_requests env order)
        ≡ scale measured.unit (get_or order.spec.replicas (pos 1))
  unfolding resource_requests counts
  sum_at-resource_requests order =
      let replicas = get_or order.spec.replicas (pos 1) in
      elim (Option-cases order.spec.template.spec.resources) [
        | inl bare ↦ ground (arith, sum_at-counts replicas)
        | inr (r, asks) ↦ ground (
          arith,
          sum_at-counts replicas,
          sum_at-reserve (codes "tickets") replicas (get_or r.requests []) (counts env replicas)
              not_reserved,
        )
      ]
