-- ===== src/Cron/Fires.antt =====
-- Whether a field that `validateField` accepts can fire.
use korder.Prelude.{
  ℕ, ◌≤◌, ◌≡◌, refl, Bool, true, false, Option, none, some, List, [], ◌∷◌, arith, inl, inr,
  Bool-cases, ◌≢◌,
}
use korder.Prelude.Int.{ℤ, pos, negsuc}
use korder.Prelude.Text.{Text, codes, text_eq}
use korder.Prelude.Strings.{split, contains, trim_space, split-ne-nil}
use korder.Prelude.Decimal.{atoi}
use korder.Cron.{
  FieldError, check_bounds, check_range, check_list, check_single, first_error, between,
  match_range, match_list, match_single, validate_field, matches_field,
}

-- A value within the bounds at which the test passes.
abbrev Somewhere : ℕ → ℕ → (ℕ → Bool) → Type 0
Somewhere lo hi test = (v : ℕ) × (lo ≤ v) × (v ≤ hi) × (test v ≡ true)

fires_bounds :
    (lo hi : ℕ) (a b : Option ℤ)
    → check_bounds lo hi a b ≡ none
    → Somewhere lo hi (λ v. between v a b)
unfolding check_bounds between
fires_bounds lo hi (some (pos a)) (some b) h = (a, ground arith, ground arith, ground arith)
fires_bounds lo hi (some (negsuc a)) (some b) h = absurd (ground arith)
fires_bounds lo hi (some a) none h = cc
fires_bounds lo hi none b h = cc

fires_single :
    (t : Text) (lo hi : ℕ) (a : Option ℤ)
    → check_single t lo hi a ≡ none
    → Somewhere lo hi (λ v. match_single v a)
unfolding check_single match_single
fires_single t lo hi (some (pos a)) h = (a, ground arith, ground arith, ground arith)
fires_single t lo hi (some (negsuc a)) h = absurd (ground arith)
fires_single t lo hi none h = cc

first_error-none : (a b : Option FieldError) → first_error a b ≡ none → a ≡ none
first_error-none none b h = refl
first_error-none (some e) b h = h

fires_list :
    (lo hi : ℕ) (parts : List Text)
    → parts ≢ []
    → check_list lo hi parts ≡ none
    → Somewhere lo hi (λ v. match_list v parts)
unfolding check_list match_list
fires_list lo hi [] ne h = absurd (ne refl)
fires_list lo hi (t ∷ ts) ne h =
    let (v, above, below, hit) =
      fires_single t lo hi (atoi (trim_space t)) (first_error-none _ _ h) in
    (v, above, below, rw hit)

fires_range :
    (lo hi : ℕ) (parts : List Text)
    → check_range lo hi parts ≡ none
    → Somewhere lo hi (λ v. match_range v parts)
unfolding check_range match_range
fires_range lo hi (a ∷ b ∷ []) h = fires_bounds lo hi (atoi a) (atoi b) h
fires_range lo hi [] h = cc
fires_range lo hi (a ∷ []) h = cc
fires_range lo hi (a ∷ b ∷ c ∷ rest) h = cc

-- A single field without a slash that is accepted for given bounds passes the match at some value
-- within them. (A field with a step may pass at none, and nothing is said of the five fields of a
-- schedule together.)
pub validate_field-fires :
    (field : Text) (lo hi : ℕ)
    → lo ≤ hi
    → contains b'/' field ≡ false
    → validate_field field lo hi ≡ none
    → (v : ℕ) × (lo ≤ v) × (v ≤ hi) × (matches_field field v lo hi ≡ true)
unfolding validate_field matches_field
validate_field-fires field lo hi bounds no_slash h = elim (Bool-cases (text_eq field (codes "*"))) [
  | inl star ↦ (lo, omega arith, bounds, rw star)
  | inr no_star ↦ elim (Bool-cases (contains b'-' field)) [
    | inl dash ↦
        let (v, above, below, hit) = fires_range lo hi (split b'-' field) (ground arith) in
        (v, above, below, rw (no_star, dash) hit)
    | inr no_dash ↦ elim (Bool-cases (contains b',' field)) [
      | inl comma ↦
          let (v, above, below, hit) =
            fires_list lo hi (split b',' field) (split-ne-nil b',' field) (ground arith) in
          (v, above, below, rw (no_star, no_dash, no_slash, comma) hit)
      | inr no_comma ↦
          let (v, above, below, hit) = fires_single field lo hi (atoi field) (ground arith) in
          (v, above, below, rw (no_star, no_dash, no_slash, no_comma) hit)
    ]
  ]
]
