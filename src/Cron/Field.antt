-- ===== src/Cron/Field.antt =====
-- The fields that a cron expression can hold, as data: their print and what they mean. The bodies
-- of `matchesField` and `validateField` are compared with these.
pub mod Shape
use korder.Prelude.{
  ℕ, zero, suc, ◌%◌, ◌^◌, ◌≤◌, ◌<◌, ◌≡◌, ◌≢◌, refl, Bool, true, false, ◌&&◌, ◌||◌, List, [], ◌∷◌,
  ◌++◌, arith, leb, ◌==◌, All, allb, subst, append-nil,
}
use korder.Prelude.Text.{Text, codes, text_eq}
use korder.Prelude.Strings.{Lacks}
use korder.Prelude.Decimal.{print_ℕ, IsDigit, print_ℕ-digits, print_ℕ-ne-nil}

pub data Field : Type 0 where
  any : Field
  range : ℕ → ℕ → Field
  step : ℕ → Field
  values : ℕ → List ℕ → Field

unfoldable pub print_values : ℕ → List ℕ → Text
print_values n [] = print_ℕ n
print_values n (m ∷ ms) = print_ℕ n ++ b',' ∷ print_values m ms

unfoldable pub print_field : Field → Text
unfolding print_values
print_field any = codes "*"
print_field (range a b) = print_ℕ a ++ b'-' ∷ print_ℕ b
print_field (step n) = b'*' ∷ b'/' ∷ print_ℕ n
print_field (values n ns) = print_values n ns

abbrev pub member : ℕ → List ℕ → Bool
member v [] = false
member v (n ∷ ns) = n == v || member v ns

-- The values at which a field fires.
abbrev pub fires : Field → ℕ → Bool
fires any v = true
fires (range a b) v = leb a v && leb v b
fires (step n) v = v % n == 0
fires (values n ns) v = member v (n ∷ ns)

-- The numbers fit Go's int, and a step is not 0.
abbrev pub IsSane : Field → Type 0
IsSane any = Unit
IsSane (range a b) = (a < 2 ^ 63) × (b < 2 ^ 63)
IsSane (step n) = (0 < n) × (n < 2 ^ 63)
IsSane (values n ns) = All (λ k. k < 2 ^ 63) (n ∷ ns)

-- A field all of whose numbers lie in the bounds.
abbrev pub in_bounds : ℕ → ℕ → Field → Bool
in_bounds lo hi any = true
in_bounds lo hi (range a b) = leb lo a && leb a b && leb b hi
in_bounds lo hi (step n) = true
in_bounds lo hi (values n ns) = allb (λ k. leb lo k && leb k hi) (n ∷ ns)

-- The characters of a print: a digit is none of the four that give a field its shape.
digits-Lack : (c : ℕ) (s : Text) → All IsDigit s → ¬ (IsDigit c) → Lacks c s
digits-Lack c [] h n = tt
digits-Lack c (d ∷ s) (hd, hs) n = ((λ e. n (subst IsDigit e hd)), digits-Lack c s hs n)

pub print_ℕ-Lacks : (c n : ℕ) → ¬ (IsDigit c) → Lacks c (print_ℕ n)
print_ℕ-Lacks c n h = digits-Lack c (print_ℕ n) (print_ℕ-digits n) h

Lacks-append : (c : ℕ) (s t : Text) → Lacks c s → Lacks c t → Lacks c (s ++ t)
Lacks-append c [] t hs ht = ht
Lacks-append c (d ∷ s) t (hd, hs) ht = (hd, Lacks-append c s t hs ht)

pub print_values-Lacks :
    (c n : ℕ) (ns : List ℕ) → ¬ (IsDigit c) → b',' ≢ c → Lacks c (print_values n ns)
unfolding print_values
print_values-Lacks c n [] h k = print_ℕ-Lacks c n h
print_values-Lacks c n (m ∷ ms) h k =
    Lacks-append c (print_ℕ n) _ (print_ℕ-Lacks c n h) (k, print_values-Lacks c m ms h k)

-- A text that begins with a digit is not the wildcard.
digits_ne_star : (s t : Text) → s ≢ [] → All IsDigit s → text_eq (s ++ t) (codes "*") ≡ false
unfolding text_eq
digits_ne_star [] t h _ = absurd (h refl)
digits_ne_star (c ∷ s) t h (hc, _) = ground arith

pub print_ℕ_ne_star : (n : ℕ) (t : Text) → text_eq (print_ℕ n ++ t) (codes "*") ≡ false
print_ℕ_ne_star n t = digits_ne_star (print_ℕ n) t (print_ℕ-ne-nil n) (print_ℕ-digits n)

pub print_values_ne_star : (n : ℕ) (ns : List ℕ) → text_eq (print_values n ns) (codes "*") ≡ false
unfolding print_values
print_values_ne_star n [] = rw (← append-nil (print_ℕ n)) (print_ℕ_ne_star n [])
print_values_ne_star n (m ∷ ms) = print_ℕ_ne_star n (b',' ∷ print_values m ms)
