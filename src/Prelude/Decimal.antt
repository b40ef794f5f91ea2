-- ===== src/Prelude/Decimal.antt =====
-- strconv.Atoi, and the decimal print of fmt's %d.
use Prim.Native.Nat.{ℕ, zero, suc, ◌+◌, ◌-◌, ◌*◌, ◌/◌, ◌%◌, ◌^◌, ◌≤◌, ◌<◌}
use mathlib.Core.Path.{◌≡◌, refl, ◌∙◌}
use mathlib.Core.Logic.{◌≢◌}
use mathlib.Core.Bool.{Bool, true, false, ◌&&◌}
use mathlib.Core.Option.{Option, none, some}
use mathlib.Core.List.{[], ◌∷◌}
use native.Mathlib.Omega.{arith}
use korder.Prelude.Tests.{ltb, leb, ◌==◌, if◌then◌else◌}
use korder.Prelude.Lists.{All}
use korder.Prelude.Int.{ℤ, pos, negsuc, sub_ℕ}
use korder.Prelude.Text.{Text}

abbrev pub is_digit : ℕ → Bool
is_digit c = leb b'0' c && leb c b'9'

scan : ℕ → Text → Option ℕ
scan acc [] = some acc
scan acc (c ∷ s) = let rest = scan (acc * 10 + (c - b'0')) s in if is_digit c then rest else none

-- strconv.ParseUint(s, 10, _) before its range test: one or more digits.
parse_digits : Text → Option ℕ
unfolding scan
parse_digits [] = none
parse_digits (c ∷ s) = scan 0 (c ∷ s)

-- The range of int64.
in_int64 : Bool → ℕ → Option ℤ
in_int64 negative n =
    if negative
    then (if leb n (2 ^ 63) then some (sub_ℕ 0 n) else none)
    else (if ltb n (2 ^ 63) then some (pos n) else none)

signed : Bool → Option ℕ → Option ℤ
unfolding in_int64
signed negative none = none
signed negative (some n) = in_int64 negative n

-- strconv.Atoi: an optional sign, then digits, within int64.
unfoldable pub atoi : Text → Option ℤ
unfolding parse_digits signed
atoi [] = none
atoi (c ∷ s) =
    if c == b'-'
    then signed true (parse_digits s)
    else if c == b'+'
    then signed false (parse_digits s)
    else signed false (parse_digits (c ∷ s))

digits_from : ℕ → ℕ → Text → Text
digits_from zero n out = out
digits_from (suc fuel) n out =
    let rest = digits_from fuel (n / 10) ((b'0' + n % 10) ∷ out) in
    if ltb n 10 then (b'0' + n) ∷ out else rest

-- fmt's %d at a number: each round divides it by ten, so n + 1 rounds are enough.
unfoldable pub print_ℕ : ℕ → Text
unfolding digits_from
print_ℕ n = digits_from (suc n) n []

unfoldable pub print_ℤ : ℤ → Text
unfolding print_ℕ
print_ℤ (pos n) = print_ℕ n
print_ℤ (negsuc n) = b'-' ∷ print_ℕ (suc n)

abbrev pub IsDigit : ℕ → Type 0
IsDigit c = (b'0' ≤ c) × (c ≤ b'9')

scan-digits_from :
    (fuel n : ℕ) (out : Text) → n < fuel → scan 0 (digits_from fuel n out) ≡ scan n out
unfolding scan digits_from
scan-digits_from zero n out h = elim h [ ]
scan-digits_from (suc fuel) n out h =
    ground (arith, scan-digits_from fuel (n / 10) ((b'0' + n % 10) ∷ out))

digits_from-digits :
    (fuel n : ℕ) (out : Text) → All IsDigit out → All IsDigit (digits_from fuel n out)
unfolding digits_from
digits_from-digits zero n out h = h
digits_from-digits (suc fuel) n out h =
    ground (arith, digits_from-digits fuel (n / 10) ((b'0' + n % 10) ∷ out))

digits_from-ne-nil : (fuel n : ℕ) (out : Text) → out ≢ [] → digits_from fuel n out ≢ []
unfolding digits_from
digits_from-ne-nil zero n out h = h
digits_from-ne-nil (suc fuel) n out h =
    ground (arith, digits_from-ne-nil fuel (n / 10) ((b'0' + n % 10) ∷ out) (λ e. cc))

pub print_ℕ-ne-nil : (n : ℕ) → print_ℕ n ≢ []
unfolding print_ℕ
print_ℕ-ne-nil n = ground (arith, digits_from-ne-nil n (n / 10) ((b'0' + n % 10) ∷ []) (λ e. cc))

pub print_ℕ-digits : (n : ℕ) → All IsDigit (print_ℕ n)
unfolding print_ℕ
print_ℕ-digits n = digits_from-digits (suc n) n [] tt

-- A text of digits has no sign.
atoi-digits : (s : Text) → s ≢ [] → All IsDigit s → atoi s ≡ signed false (scan 0 s)
unfolding atoi parse_digits
atoi-digits [] h _ = absurd (h refl)
atoi-digits (c ∷ s) _ (hc, hs) = ground arith

scan-print_ℕ : (n : ℕ) → scan 0 (print_ℕ n) ≡ some n
unfolding print_ℕ
scan-print_ℕ n = scan-digits_from (suc n) n [] (omega arith) ∙ (unfold scan in refl)

signed_fits : (n : ℕ) → n < 2 ^ 63 → signed false (some n) ≡ some (pos n)
unfolding signed
signed_fits n h = ground arith

pub print_ℕ-injective : (m n : ℕ) → print_ℕ m ≡ print_ℕ n → m ≡ n
print_ℕ-injective m n h = ground (arith, scan-print_ℕ m, scan-print_ℕ n)

-- A number below 2 ^ 63 is read back from its decimal print.
pub atoi-print_ℕ : (n : ℕ) → n < 2 ^ 63 → atoi (print_ℕ n) ≡ some (pos n)
atoi-print_ℕ n h =
    rw (atoi-digits (print_ℕ n) (print_ℕ-ne-nil n) (print_ℕ-digits n))
      (rw (scan-print_ℕ n) (signed_fits n h))
