-- ===== src/Usage/Measure.antt =====
-- The laws of resource.Quantity that counting usage relies on, and what a projected usage amounts
-- to.
use korder.Prelude.{
  ◌≡◌, sym, ℕ, Bool, true, false, none, some, [], ◌∷◌, arith, if◌then◌else◌, inl, inr, Option-cases,
  is_some, zero, suc,
}
use korder.Prelude.Int.{ℤ, pos, ltb_ℤ, eqb_ℤ, ◌+ℤ◌, ◌-ℤ◌, ◌≤ℤ◌, scale}
use korder.Prelude.Text.{Text, text_eq, text_eq_iff, text_eq_refl, lookup, insert, lookup-insert}
use korder.Api.Meta.{Quantity, ResourceList}
use korder.Client.{Cluster}
use korder.Usage.{enter_count, project, is_exceeded}
use korder.Usage.Within.{is_exceeded-limit}

-- A quantity is measured in parts, of which a whole has `unit`.
pub record IsMeasured (env : Cluster) : Type 0 where
  pub unit : ℕ
  pub measure : Quantity → ℤ
  pub exceeds_lem : (q r : Quantity) → env.exceeds q r ≡ ltb_ℤ (measure r) (measure q)
  pub is_zero_lem : (q : Quantity) → env.is_zero q ≡ eqb_ℤ (measure q) (pos 0)
  pub is_positive_lem : (q : Quantity) → env.is_positive q ≡ ltb_ℤ (pos 0) (measure q)
  pub add_quantity_lem : (q r : Quantity) → measure (env.add_quantity q r) ≡ measure q +ℤ measure r
  pub sub_quantity_lem : (q r : Quantity) → measure (env.sub_quantity q r) ≡ measure q -ℤ measure r
  pub zero_quantity_lem : measure env.zero_quantity ≡ pos 0
  pub new_quantity_lem : (z : ℤ) → measure (env.new_quantity z) ≡ scale unit z

pub +ℤ_assoc : (a b c : ℤ) → (a +ℤ b) +ℤ c ≡ a +ℤ (b +ℤ c)
unfolding ◌+ℤ◌
+ℤ_assoc a b c = ground arith

pub +ℤ-zero : (a : ℤ) → a +ℤ pos 0 ≡ a
unfolding ◌+ℤ◌
+ℤ-zero a = ground arith

pub zero-+ℤ : (a : ℤ) → pos 0 +ℤ a ≡ a
unfolding ◌+ℤ◌
zero-+ℤ a = ground arith

module _ (env : Cluster) (measured : IsMeasured env) where
  -- How much there is under a name, nothing where the name is missing.
  unfoldable pub amount_at : Text → ResourceList → ℤ
  amount_at name usage = elim (lookup name usage) [ none ↦ pos 0 | some q ↦ measured.measure q ]

  -- What all entries of a name add up to.
  unfoldable pub sum_at : Text → ResourceList → ℤ
  sum_at name [] = pos 0
  sum_at name ((n, q) ∷ rs) =
      if text_eq n name then measured.measure q +ℤ sum_at name rs else sum_at name rs

  pub amount_at-insert :
      (n name : Text) (q : Quantity) (usage : ResourceList)
      → amount_at name (insert n q usage)
        ≡ (if text_eq n name then measured.measure q else amount_at name usage)
  unfolding amount_at
  amount_at-insert n name q usage = ground (arith, lookup-insert n name q usage)

  amount_at_missing :
      (name : Text) (usage : ResourceList) → lookup name usage ≡ none → amount_at name usage ≡ pos 0
  unfolding amount_at
  amount_at_missing name usage missing = ground arith

  pub amount_at_found :
      (name : Text) (usage : ResourceList) (q : Quantity)
      → lookup name usage ≡ some q
      → amount_at name usage ≡ measured.measure q
  unfolding amount_at
  amount_at_found name usage q found = ground arith

  -- The projected usage has under each name what was used and all that is requested.
  pub amount_at-project :
      (name : Text) (usage requests : ResourceList)
      → amount_at name (project env usage requests) ≡ amount_at name usage +ℤ sum_at name requests
  unfolding project sum_at
  amount_at-project name usage [] = sym (+ℤ-zero (amount_at name usage))
  amount_at-project name usage ((n, q) ∷ rs) = elim (Option-cases (lookup n usage)) [
    | inl missing ↦ ground (
      arith,
      amount_at-project name (insert n q usage) rs,
      amount_at-insert n name q usage,
      text_eq_iff n name,
      zero-+ℤ (measured.measure q +ℤ sum_at name rs),
      amount_at_missing n usage missing,
    )
    | inr (u, used) ↦ ground (
      arith,
      amount_at-project name (insert n (env.add_quantity u q) usage) rs,
      amount_at-insert n name (env.add_quantity u q) usage,
      text_eq_iff n name,
      +ℤ_assoc (amount_at name usage) (measured.measure q) (sum_at name rs),
      measured.add_quantity_lem u q,
      amount_at_found n usage u used,
    )
  ]

is_found : Text → ResourceList → Bool
is_found name rs = is_some (lookup name rs)

project-keeps :
    (env : Cluster) (name : Text) (usage requests : ResourceList)
    → is_found name usage ≡ true
    → is_found name (project env usage requests) ≡ true
unfolding project is_found
project-keeps env name usage [] h = h
project-keeps env name usage ((n, q) ∷ rs) h = elim (Option-cases (lookup n usage)) [
  | inl missing ↦
      ground (arith, project-keeps env name (insert n q usage) rs, lookup-insert n name q usage)
  | inr (u, used) ↦
      let total = env.add_quantity u q in
      ground
        (arith, project-keeps env name (insert n total usage) rs, lookup-insert n name total usage)
]

-- What is requested stands in the projected usage.
pub project-found :
    (env : Cluster) (name : Text) (usage requests : ResourceList)
    → is_some (lookup name requests) ≡ true
    → is_some (lookup name (project env usage requests)) ≡ true
unfolding project is_found lookup
project-found env name usage [] h = cc
project-found env name usage ((n, q) ∷ rs) h = elim (Option-cases (lookup n usage)) [
  | inl missing ↦ ground (
    arith,
    project-keeps env name (insert n q usage) rs,
    lookup-insert n name q usage,
    project-found env name (insert n q usage) rs,
  )
  | inr (u, used) ↦
      let total = env.add_quantity u q in
      ground (
        arith,
        project-keeps env name (insert n total usage) rs,
        lookup-insert n name total usage,
        project-found env name (insert n total usage) rs,
      )
]

-- A requested name that has a limit, where the projected usage does not exceed the limits, is within
-- that limit with what is used of it already.
pub project-within :
    (env : Cluster) (measured : IsMeasured env) (usage requests limits : ResourceList) (name : Text)
    (limit : Quantity)
    → is_exceeded env (project env usage requests) limits ≡ false
    → lookup name limits ≡ some limit
    → is_some (lookup name requests) ≡ true
    → amount_at env measured name usage +ℤ sum_at env measured name requests
      ≤ℤ measured.measure limit
project-within env measured usage requests limits name limit fine limited asked =
    elim (Option-cases (lookup name (project env usage requests))) [
      | inl missing ↦ absurd (ground (arith, project-found env name usage requests asked))
      | inr (u, used) ↦ ground (
        arith,
        is_exceeded-limit env (project env usage requests) limits name u limit fine limited used,
        measured.exceeds_lem u limit,
        amount_at_found env measured name (project env usage requests) u used,
        amount_at-project env measured name usage requests,
      )
    ]

-- A count that is entered is what there is under its name, and no count is nothing.
pub amount_at-enter_count :
    (env : Cluster) (measured : IsMeasured env) (name : Text) (n : ℕ) (usage : ResourceList)
    → lookup name usage ≡ none
    → amount_at env measured name (enter_count env name n usage) ≡ scale measured.unit (pos n)
unfolding enter_count amount_at
amount_at-enter_count env measured name zero usage missing = unfold scale in ground arith
amount_at-enter_count env measured name (suc n) usage missing = ground (
  arith,
  lookup-insert name name (env.new_quantity (pos (suc n))) usage,
  text_eq_refl name,
  measured.new_quantity_lem (pos (suc n)),
)

pub lookup-enter_count :
    (env : Cluster) (name other : Text) (n : ℕ) (usage : ResourceList)
    → text_eq name other ≡ false
    → lookup other (enter_count env name n usage) ≡ lookup other usage
unfolding enter_count
lookup-enter_count env name other n usage differs =
    ground (arith, lookup-insert name other (env.new_quantity (pos n)) usage)
