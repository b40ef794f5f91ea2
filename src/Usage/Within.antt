-- ===== src/Usage/Within.antt =====
-- What a usage is when it is not found to exceed the limits.
use korder.Prelude.{
  ◌⊎◌, inl, inr, Bool, true, false, Option, none, some, refl, ◌≡◌, List, [], ◌∷◌, arith, All,
  Option-cases, Bool-cases, is_some, allb, not, ◌||◌,
}
use korder.Prelude.Text.{Text, text_eq_iff, lookup}
use korder.Api.Meta.{ResourceList, Quantity}
use korder.Api.Quota.{Quota}
use korder.Client.{Cluster, Reply, ok, err, M, Trace, Error}
use korder.Usage.{project, is_exceeded, check_projected}

pub is_exceeded-limit :
    (env : Cluster) (usage limits : ResourceList) (name : Text) (used limit : Quantity)
    → is_exceeded env usage limits ≡ false
    → lookup name limits ≡ some limit
    → lookup name usage ≡ some used
    → env.exceeds used limit ≡ false
unfolding is_exceeded lookup
is_exceeded-limit env usage [] name used limit fine limited found = cc
is_exceeded-limit env usage ((n, l) ∷ limits) name used limit fine limited found =
    elim (Option-cases (lookup n usage)) [
      | inl none_used ↦
          ground (arith, text_eq_iff n name, is_exceeded-limit env usage limits name used limit)
      | inr (u, used_here) ↦
          ground (arith, text_eq_iff n name, is_exceeded-limit env usage limits name used limit)
    ]

module _ (env : Cluster) (applies : Quota → M Bool) (count : Quota → M (Reply ResourceList))
    (limits : Quota → ResourceList) (requests : ResourceList) where
  -- The quota was found not to apply, or its usage was counted and stays within its limits with the
  -- requests added.
  unfoldable pub Kept : Quota → Type 0
  Kept quota =
      (at : Trace) × (((applies quota at).0 ≡ some false)
        ⊎ ((usage : ResourceList) × ((count quota at).0 ≡ some (ok usage))
            × (is_exceeded env (project env usage requests) (limits quota) ≡ false)))

  pub check_projected-Kept :
      (quotas : List Quota) (tr : Trace)
      → (check_projected env applies count limits requests quotas tr).0 ≡ some none
      → All Kept quotas
  unfolding check_projected Kept
  check_projected-Kept [] tr h = tt
  check_projected-Kept (quota ∷ quotas) tr h =
      let tr' = (applies quota tr).1 in
      let tr'' = (count quota tr').1 in
      let rest = check_projected-Kept quotas in
      elim (Option-cases (applies quota tr).0) [
        | inl never ↦ absurd (ground arith)
        | inr (false, skipped) ↦ ((tr, inl skipped), rest tr' (ground arith))
        | inr (true, applying) ↦ elim (Option-cases (count quota tr').0) [
          | inl never ↦ absurd (ground arith)
          | inr (err e, failed) ↦ absurd (ground arith)
          | inr (ok usage, counted) ↦
              elim (Bool-cases (is_exceeded env (project env usage requests) (limits quota))) [
                | inl above ↦ absurd (ground arith)
                | inr fine ↦ ((tr', inr (usage, counted, fine)), rest tr'' (ground arith))
              ]
        ]
      ]

  -- The projected usage is within the limits of the quota, or the quota does not apply.
  abbrev pub fits : (Quota → Bool) → (Quota → ResourceList) → Quota → Bool
  fits applying usage quota =
      not (applying quota)
      || not (is_exceeded env (project env (usage quota) requests) (limits quota))

  -- Where what applies and what is counted does not change in the meantime, the loop finds an error
  -- exactly when some quota does not fit.
  pub check_projected-fits :
      (applying : Quota → Bool) (usage : Quota → ResourceList)
      → ((quota : Quota) (at : Trace) → (applies quota at).0 ≡ some (applying quota))
      → ((quota : Quota) (at : Trace) → (count quota at).0 ≡ some (ok (usage quota)))
      → (quotas : List Quota) (tr : Trace)
      → (failure : Option Error) × ((check_projected env applies count limits requests quotas tr).0
          ≡ some failure)
        × (is_some failure ≡ not (allb (fits applying usage) quotas))
  unfolding check_projected
  check_projected-fits applying usage steady counted [] tr = (none, refl, refl)
  check_projected-fits applying usage steady counted (quota ∷ quotas) tr =
      let tr' = (applies quota tr).1 in
      let skipped = check_projected-fits applying usage steady counted quotas tr' in
      let passed = check_projected-fits applying usage steady counted quotas (count quota tr').1 in
      elim (Bool-cases (applying quota)) [
        | inr other ↦
            (skipped.0, ground (arith, steady quota tr, skipped.1), ground (arith, skipped.2))
        | inl this ↦
            elim (Bool-cases
              (is_exceeded env (project env (usage quota) requests) (limits quota))) [
                | inr fine ↦ (
                  passed.0,
                  ground (arith, steady quota tr, counted quota tr', passed.1),
                  ground (arith, passed.2),
                )
                | inl above ↦
                    elim (Option-cases
                      (check_projected env applies count limits requests (quota ∷ quotas) tr).0) [
                        | inl never ↦ absurd (ground (arith, steady quota tr, counted quota tr'))
                        | inr (none, good) ↦
                            absurd (ground (arith, steady quota tr, counted quota tr'))
                        | inr (some e, bad) ↦ (some e, bad, ground arith)
                      ]
              ]
      ]

-- The usage under the name of a limit, if there is any, is within the limit.
abbrev pub within_limit : Cluster → ResourceList → Text × Quantity → Bool
within_limit env usage (name, limit) = elim (lookup name usage) [
  | none ↦ true
  | some used ↦ not (env.exceeds used limit)
]

pub is_exceeded-allb :
    (env : Cluster) (usage limits : ResourceList)
    → is_exceeded env usage limits ≡ not (allb (within_limit env usage) limits)
unfolding is_exceeded
is_exceeded-allb env usage [] = refl
is_exceeded-allb env usage ((name, limit) ∷ limits) =
    ground (arith, is_exceeded-allb env usage limits)
