-- ===== src/QuotaController/Totals.antt =====
-- What the usage of a quota amounts to.
use korder.Prelude.{
  ◌≡◌, refl, ◌∙◌, sym, subst, false, none, some, List, [], ◌∷◌, ◌+◌, arith, length, inl, inr,
  Option-cases,
}
use korder.Prelude.Int.{ℤ, pos, scale, ◌+ℤ◌}
use korder.Prelude.Text.{Text, codes, text_eq, text_eq_refl, lookup, lookup-insert}
use korder.Api.Meta.{Quantity, ResourceList}
use korder.Api.Ticket.{Ticket}
use korder.Api.Quota.{Quota}
use korder.Client.{Cluster, ok, err, Trace}
use korder.QuotaController.Scope.{Scoped, resources_in_scope}
use korder.QuotaController.Count.{
  requested, add_requests, enter_total, count_lists, count_resources, resource_usage,
}
use korder.Usage.Measure.{
  IsMeasured, amount_at, amount_at-enter_count, lookup-enter_count, +ℤ_assoc, +ℤ-zero, zero-+ℤ,
}

module _ (env : Cluster) (measured : IsMeasured env) where
  -- What the tickets request of a resource, added up as numbers.
  pub total_requested : Text → List Ticket → ℤ
  total_requested name [] = pos 0
  total_requested name (t ∷ ts) = elim (requested name t.spec) [
    | none ↦ total_requested name ts
    | some q ↦ measured.measure q +ℤ total_requested name ts
  ]

  measure-add_requests :
      (name : Text) (ts : List Ticket) (total : Quantity)
      → measured.measure (add_requests env name ts total)
        ≡ measured.measure total +ℤ total_requested name ts
  unfolding add_requests total_requested
  measure-add_requests name [] total = sym (+ℤ-zero (measured.measure total))
  measure-add_requests name (t ∷ ts) total = elim (Option-cases (requested name t.spec)) [
    | inl nothing ↦ ground (arith, measure-add_requests name ts total)
    | inr (q, asks) ↦ ground (
      arith,
      measure-add_requests name ts (env.add_quantity total q),
      measured.add_quantity_lem total q,
      +ℤ_assoc (measured.measure total) (measured.measure q) (total_requested name ts),
    )
  ]

  reserved : Text → List Ticket → Quantity
  reserved name ts = add_requests env name ts env.zero_quantity

  measure-reserved :
      (name : Text) (ts : List Ticket)
      → measured.measure (reserved name ts) ≡ total_requested name ts
  unfolding reserved
  measure-reserved name ts = ground (
    arith,
    measure-add_requests name ts env.zero_quantity,
    measured.zero_quantity_lem,
    zero-+ℤ (total_requested name ts),
  )

  lookup-enter_total :
      (name other : Text) (total : Quantity) (usage : ResourceList)
      → text_eq name other ≡ false
      → lookup other (enter_total env name total usage) ≡ lookup other usage
  unfolding enter_total
  lookup-enter_total name other total usage differs =
      ground (arith, lookup-insert name other total usage)

  amount_at-enter_total :
      (name : Text) (total : Quantity) (usage : ResourceList)
      → lookup name usage ≡ none
      → amount_at env measured name (enter_total env name total usage) ≡ measured.measure total
  unfolding enter_total amount_at
  amount_at-enter_total name total usage missing =
      ground
        (arith, lookup-insert name name total usage, text_eq_refl name, measured.is_zero_lem total)

  amount_at-same :
      (name : Text) (a b : ResourceList)
      → lookup name a ≡ lookup name b
      → amount_at env measured name a ≡ amount_at env measured name b
  unfolding amount_at
  amount_at-same name a b same = ground arith

  -- A name that none of the five counts has.
  lookup-count_lists :
      (name : Text) (found : Scoped)
      → text_eq (codes "tickets") name ≡ false
      → text_eq (codes "orders.cron") name ≡ false
      → text_eq (codes "orders.daemon") name ≡ false
      → text_eq (codes "orders.regular") name ≡ false
      → text_eq (codes "orders") name ≡ false
      → lookup name (count_lists env found) ≡ none
  unfolding count_lists lookup
  lookup-count_lists name found a b c d e =
      lookup-enter_count env (codes "tickets") name _ _ a
      ∙ lookup-enter_count env (codes "orders.cron") name _ _ b
      ∙ lookup-enter_count env (codes "orders.daemon") name _ _ c
      ∙ lookup-enter_count env (codes "orders.regular") name _ _ d
      ∙ lookup-enter_count env (codes "orders") name _ _ e

  amount_at-tickets :
      (found : Scoped)
      → amount_at env measured (codes "tickets") (count_lists env found)
        ≡ scale measured.unit (pos (length found.tickets))
  unfolding count_lists lookup text_eq
  amount_at-tickets found =
      amount_at-enter_count env measured (codes "tickets") (length found.tickets) _ (
        lookup-enter_count env (codes "orders.cron") (codes "tickets") _ _ refl
        ∙ lookup-enter_count env (codes "orders.daemon") (codes "tickets") _ _ refl
        ∙ lookup-enter_count env (codes "orders.regular") (codes "tickets") _ _ refl
        ∙ lookup-enter_count env (codes "orders") (codes "tickets") _ _ refl)

  amount_at-orders :
      (found : Scoped)
      → amount_at env measured (codes "orders") (count_lists env found)
        ≡ scale measured.unit
            (pos (length found.orders + length found.daemon_orders + length found.cron_orders))
  unfolding count_lists lookup text_eq
  amount_at-orders found =
      amount_at-same (codes "orders") _ _ (
        lookup-enter_count env (codes "tickets") (codes "orders") _ _ refl
        ∙ lookup-enter_count env (codes "orders.cron") (codes "orders") _ _ refl
        ∙ lookup-enter_count env (codes "orders.daemon") (codes "orders") _ _ refl
        ∙ lookup-enter_count env (codes "orders.regular") (codes "orders") _ _ refl)
      ∙ amount_at-enter_count env measured (codes "orders") _ [] refl

  -- Under the names of the usage stand the numbers of the lists and the sums of the requests.
  abbrev pub IsCounted : Scoped → ResourceList → Type 0
  IsCounted found usage =
      (amount_at env measured (codes "orders") usage
        ≡ scale measured.unit
            (pos (length found.orders + length found.daemon_orders + length found.cron_orders)))
      × (amount_at env measured (codes "tickets") usage
          ≡ scale measured.unit (pos (length found.tickets)))
      × (amount_at env measured (codes "reserved.cpu") usage
          ≡ total_requested (codes "cpu") found.tickets)
      × (amount_at env measured (codes "reserved.memory") usage
          ≡ total_requested (codes "memory") found.tickets)

  through_totals :
      (name : Text) (found : Scoped)
      → text_eq (codes "reserved.memory") name ≡ false
      → text_eq (codes "reserved.cpu") name ≡ false
      → lookup name (count_resources env found) ≡ lookup name (count_lists env found)
  unfolding count_resources
  through_totals name found a b =
      lookup-enter_total (codes "reserved.memory") name _ _ a
      ∙ lookup-enter_total (codes "reserved.cpu") name _ _ b

  count_resources-IsCounted : (found : Scoped) → IsCounted found (count_resources env found)
  unfolding text_eq
  count_resources-IsCounted found = (
    amount_at-same (codes "orders") _ _ (through_totals (codes "orders") found refl refl)
        ∙ amount_at-orders found,
    amount_at-same (codes "tickets") _ _ (through_totals (codes "tickets") found refl refl)
        ∙ amount_at-tickets found,
    unfold count_resources reserved in
        amount_at-same (codes "reserved.cpu") _ _
          (lookup-enter_total (codes "reserved.memory") (codes "reserved.cpu") _ _ refl)
        ∙ amount_at-enter_total (codes "reserved.cpu") (reserved (codes "cpu") found.tickets) _
            (lookup-count_lists (codes "reserved.cpu") found refl refl refl refl refl)
        ∙ measure-reserved (codes "cpu") found.tickets,
    unfold count_resources reserved in
        amount_at-enter_total (codes "reserved.memory") (reserved (codes "memory") found.tickets) _
          (lookup-enter_total (codes "reserved.cpu") (codes "reserved.memory") _ _ refl
            ∙ lookup-count_lists (codes "reserved.memory") found refl refl refl refl refl)
        ∙ measure-reserved (codes "memory") found.tickets,
  )

  -- The usage of a quota is what the lists of its scope amount to: as many orders of the three kinds
  -- and tickets as were listed, and the processor and memory requests of all these tickets added up.
  -- Quantities follow the laws of `IsMeasured`.
  pub resource_usage-IsCounted :
      (quota : Quota) (at : Trace) (usage : ResourceList)
      → (resource_usage env quota at).0 ≡ some (ok usage)
      → (found : Scoped) × ((resources_in_scope env quota at).0 ≡ some (ok found))
        × IsCounted found usage
  unfolding resource_usage
  resource_usage-IsCounted quota at usage h =
      elim (Option-cases (resources_in_scope env quota at).0) [
        | inl never ↦ absurd (ground arith)
        | inr (err e, failed) ↦ absurd (ground arith)
        | inr (ok found, listed) ↦
            let same : count_resources env found ≡ usage = ground arith in
            (found, listed, subst (IsCounted found) same (count_resources-IsCounted found))
      ]
