-- ===== src/Cron/Match.antt =====
-- `matchesField` at the print of a field.
use korder.Prelude.{ℕ, zero, suc, ◌^◌, ◌<◌, ◌≡◌, refl, false, List, [], ◌∷◌, arith, All}
use korder.Prelude.Text.{Text, text_eq}
use korder.Prelude.Strings.{split, trim_space, is_space, trim_space-sane}
use korder.Prelude.Decimal.{print_ℕ, IsDigit, print_ℕ-digits, atoi-print_ℕ}
use korder.Cron.{match_list, matches_field}
use korder.Cron.Field.{
  Field, any, range, step, values, print_values, print_field, member, fires, IsSane,
}
use korder.Cron.Field.Shape.{
  range_shape, step_shape, values_shape, single_no_comma, list_has_comma, split_single, split_more,
}

digit_no_space : (c : ℕ) → IsDigit c → is_space c ≡ false
unfolding is_space
digit_no_space c h = ground arith

digits_no_space : (s : Text) → All IsDigit s → All (λ c. is_space c ≡ false) s
digits_no_space [] h = tt
digits_no_space (c ∷ s) (hc, hs) = (digit_no_space c hc, digits_no_space s hs)

pub print_ℕ_no_space : (n : ℕ) → All (λ c. is_space c ≡ false) (print_ℕ n)
print_ℕ_no_space n = digits_no_space (print_ℕ n) (print_ℕ-digits n)

pub trim_space-print_ℕ : (n : ℕ) → trim_space (print_ℕ n) ≡ print_ℕ n
trim_space-print_ℕ n = trim_space-sane (print_ℕ n) (print_ℕ_no_space n)

match_list-print_values :
    (v n : ℕ) (ns : List ℕ)
    → All (λ k. k < 2 ^ 63) (n ∷ ns)
    → match_list v (split b',' (print_values n ns)) ≡ member v (n ∷ ns)
unfolding match_list print_field
match_list-print_values v n [] (h, _) =
    rw (split_single n) (rw (trim_space-print_ℕ n, atoi-print_ℕ n h) (ground arith))
match_list-print_values v n (m ∷ ms) (h, hs) =
    rw (split_more n m ms) (
      rw (trim_space-print_ℕ n, atoi-print_ℕ n h, match_list-print_values v m ms hs) (ground arith))

-- Matching the print of a field, whatever the field, is the test that the field fires at the value,
-- provided that its numbers fit Go's int and a step is not 0.
pub matches_field-print_field :
    (f : Field) (v lo hi : ℕ) → IsSane f → matches_field (print_field f) v lo hi ≡ fires f v
unfolding matches_field print_field
matches_field-print_field any v lo hi h = unfold text_eq in refl
matches_field-print_field (range a b) v lo hi (ha, hb) =
    let (no_star, dash, parts) = range_shape a b in
    rw no_star (rw dash (rw parts (rw (atoi-print_ℕ a ha, atoi-print_ℕ b hb) (ground arith))))
matches_field-print_field (step zero) v lo hi (h, _) = elim h [ ]
matches_field-print_field (step (suc n)) v lo hi (h, hn) =
    let (no_star, no_dash, slash, parts) = step_shape (suc n) in
    rw no_star
      (rw no_dash (rw slash (rw parts (rw (atoi-print_ℕ (suc n) hn) (unfold text_eq in refl)))))
matches_field-print_field (values n []) v lo hi (h, _) =
    let (no_star, no_dash, no_slash) = values_shape n [] in
    rw no_star (rw no_dash (rw no_slash (rw (single_no_comma n, atoi-print_ℕ n h) (ground arith))))
matches_field-print_field (values n (m ∷ ms)) v lo hi h =
    let (no_star, no_dash, no_slash) = values_shape n (m ∷ ms) in
    rw no_star (
      rw no_dash
        (rw no_slash (rw (list_has_comma n m ms) (match_list-print_values v n (m ∷ ms) h))))
