-- ===== src/Cron/Field/Shape.antt =====
-- What the tests of `matchesField` and `validateField` find at the print of each field.
use korder.Prelude.{ℕ, ◌≡◌, refl, true, false, List, [], ◌∷◌, ◌++◌, arith}
use korder.Prelude.Text.{codes, text_eq}
use korder.Prelude.Strings.{
  split, contains, split-Lacks, split-append, contains-Lacks, contains-append,
}
use korder.Prelude.Decimal.{print_ℕ}
use korder.Cron.Field.{
  print_values, print_ℕ-Lacks, print_values-Lacks, print_values_ne_star, print_ℕ_ne_star,
}

pub range_shape :
    (a b : ℕ)
    → let s = print_ℕ a ++ b'-' ∷ print_ℕ b in
      (text_eq s (codes "*") ≡ false)
      × (contains b'-' s ≡ true)
      × (split b'-' s ≡ print_ℕ a ∷ print_ℕ b ∷ [])
range_shape a b = (
  print_ℕ_ne_star a (b'-' ∷ print_ℕ b),
  contains-append b'-' (print_ℕ a) (print_ℕ b),
  rw (split-append b'-' (print_ℕ a) (print_ℕ b) (print_ℕ-Lacks b'-' a (omega arith)))
      (rw (split-Lacks b'-' (print_ℕ b) (print_ℕ-Lacks b'-' b (omega arith)))),
)

pub step_shape :
    (n : ℕ)
    → let s = b'*' ∷ b'/' ∷ print_ℕ n in
      (text_eq s (codes "*") ≡ false)
      × (contains b'-' s ≡ false)
      × (contains b'/' s ≡ true)
      × (split b'/' s ≡ codes "*" ∷ print_ℕ n ∷ [])
unfolding text_eq contains split
step_shape n = (
  refl,
  contains-Lacks b'-' (print_ℕ n) (print_ℕ-Lacks b'-' n (omega arith)),
  refl,
  rw (split-Lacks b'/' (print_ℕ n) (print_ℕ-Lacks b'/' n (omega arith))),
)

pub values_shape :
    (n : ℕ) (ns : List ℕ)
    → let s = print_values n ns in
      (text_eq s (codes "*") ≡ false) × (contains b'-' s ≡ false) × (contains b'/' s ≡ false)
values_shape n ns = (
  print_values_ne_star n ns,
  contains-Lacks b'-' _ (print_values-Lacks b'-' n ns (omega arith) (omega arith)),
  contains-Lacks b'/' _ (print_values-Lacks b'/' n ns (omega arith) (omega arith)),
)

pub single_no_comma : (n : ℕ) → contains b',' (print_ℕ n) ≡ false
single_no_comma n = contains-Lacks b',' (print_ℕ n) (print_ℕ-Lacks b',' n (omega arith))

pub list_has_comma : (n m : ℕ) (ms : List ℕ) → contains b',' (print_values n (m ∷ ms)) ≡ true
unfolding print_values
list_has_comma n m ms = contains-append b',' (print_ℕ n) (print_values m ms)

-- The parts of a list, one print after the other.
pub split_single : (n : ℕ) → split b',' (print_ℕ n) ≡ print_ℕ n ∷ []
split_single n = split-Lacks b',' (print_ℕ n) (print_ℕ-Lacks b',' n (omega arith))

pub split_more :
    (n m : ℕ) (ms : List ℕ)
    → split b',' (print_values n (m ∷ ms)) ≡ print_ℕ n ∷ split b',' (print_values m ms)
unfolding print_values
split_more n m ms =
    split-append b',' (print_ℕ n) (print_values m ms) (print_ℕ-Lacks b',' n (omega arith))
