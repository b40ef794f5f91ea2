-- ===== src/Cron/Validate.antt =====
-- `validateField` at the print of a field.
use korder.Prelude.{
  ℕ, zero, suc, ◌^◌, ◌<◌, ◌≡◌, refl, not, ◌&&◌, List, [], ◌∷◌, arith, leb, All, allb, is_some,
}
use korder.Prelude.Text.{text_eq}
use korder.Prelude.Strings.{split}
use korder.Prelude.Decimal.{atoi-print_ℕ}
use korder.Cron.{check_list, validate_field}
use korder.Cron.Field.{
  Field, any, range, step, values, print_values, print_field, in_bounds, IsSane,
}
use korder.Cron.Field.Shape.{
  range_shape, step_shape, values_shape, single_no_comma, list_has_comma, split_single, split_more,
}
use korder.Cron.Match.{trim_space-print_ℕ}

check_list-print_values :
    (lo hi n : ℕ) (ns : List ℕ)
    → All (λ k. k < 2 ^ 63) (n ∷ ns)
    → is_some (check_list lo hi (split b',' (print_values n ns)))
      ≡ not (allb (λ k. leb lo k && leb k hi) (n ∷ ns))
unfolding check_list print_field
check_list-print_values lo hi n [] (h, _) =
    rw (split_single n) (rw (trim_space-print_ℕ n, atoi-print_ℕ n h) (ground arith))
check_list-print_values lo hi n (m ∷ ms) (h, hs) = rw (split_more n m ms) (
    rw (trim_space-print_ℕ n, atoi-print_ℕ n h)
      (ground (arith, check_list-print_values lo hi m ms hs)))

-- The print of a field is refused exactly when one of its numbers lies out of the bounds or its
-- range is reversed, provided that the numbers fit Go's int and a step is not 0.
pub validate_field-print_field :
    (f : Field) (lo hi : ℕ)
    → IsSane f
    → is_some (validate_field (print_field f) lo hi) ≡ not (in_bounds lo hi f)
unfolding validate_field print_field
validate_field-print_field any lo hi h = unfold text_eq in refl
validate_field-print_field (range a b) lo hi (ha, hb) =
    let (no_star, dash, parts) = range_shape a b in
    rw no_star (rw dash (rw parts (rw (atoi-print_ℕ a ha, atoi-print_ℕ b hb) (ground arith))))
validate_field-print_field (step zero) lo hi (h, _) = elim h [ ]
validate_field-print_field (step (suc n)) lo hi (h, hn) =
    let (no_star, no_dash, slash, parts) = step_shape (suc n) in
    rw no_star
      (rw no_dash (rw slash (rw parts (rw (atoi-print_ℕ (suc n) hn) (unfold text_eq in refl)))))
validate_field-print_field (values n []) lo hi (h, _) =
    let (no_star, no_dash, no_slash) = values_shape n [] in
    rw no_star (rw no_dash (rw no_slash (rw (single_no_comma n, atoi-print_ℕ n h) (ground arith))))
validate_field-print_field (values n (m ∷ ms)) lo hi h =
    let (no_star, no_dash, no_slash) = values_shape n (m ∷ ms) in
    rw no_star (
      rw no_dash
        (rw no_slash (rw (list_has_comma n m ms) (check_list-print_values lo hi n (m ∷ ms) h))))
