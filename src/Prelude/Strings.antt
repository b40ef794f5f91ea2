-- ===== src/Prelude/Strings.antt =====
-- The functions of Go's package strings that the program calls, with one code point as separator.
use Prim.Native.Nat.{ℕ}
use mathlib.Core.Path.{◌≡◌, refl, ◌∙◌}
use mathlib.Core.Logic.{◌≢◌}
use mathlib.Core.Bool.{Bool, true, false, ◌&&◌, ◌||◌}
use mathlib.Core.Option.{Option, none, some}
use mathlib.Core.List.{List, [], ◌∷◌, ◌++◌, append-nil, append_assoc}
use native.Mathlib.Omega.{arith}
use korder.Prelude.Tests.{leb, ◌==◌, if◌then◌else◌}
use korder.Prelude.Lists.{All, is_empty}
use korder.Prelude.Text.{Text}

cons_head : ℕ → List Text → List Text
cons_head c [] = (c ∷ []) ∷ []
cons_head c (p ∷ ps) = (c ∷ p) ∷ ps

-- strings.Split(s, sep)
unfoldable pub split : ℕ → Text → List Text
unfolding cons_head
split sep [] = [] ∷ []
split sep (c ∷ s) = let rest = split sep s in if c == sep then [] ∷ rest else cons_head c rest

-- strings.Contains(s, sep)
unfoldable pub contains : ℕ → Text → Bool
contains sep [] = false
contains sep (c ∷ s) = c == sep || contains sep s

-- unicode.IsSpace
unfoldable pub is_space : ℕ → Bool
is_space c =
    leb 9 c && leb c 13
    || c == 32
    || c == 0x85
    || c == 0xa0
    || c == 0x1680
    || leb 0x2000 c && leb c 0x200a
    || c == 0x2028
    || c == 0x2029
    || c == 0x202f
    || c == 0x205f
    || c == 0x3000

trim_left : Text → Text
trim_left [] = []
trim_left (c ∷ s) = if is_space c then trim_left s else c ∷ s

trim_right : Text → Text
trim_right [] = []
trim_right (c ∷ s) = let r = trim_right s in if is_space c && is_empty r then [] else c ∷ r

-- strings.TrimSpace
unfoldable pub trim_space : Text → Text
unfolding trim_left trim_right is_space
trim_space s = trim_right (trim_left s)

add_word : Text → List Text → List Text
add_word [] ws = ws
add_word (c ∷ w) ws = (c ∷ w) ∷ ws

fields_from : Text → Text → List Text
fields_from cur [] = add_word cur []
fields_from cur (c ∷ s) = elim (is_space c) [
  | true ↦ add_word cur (fields_from [] s)
  | false ↦ fields_from (cur ++ c ∷ []) s
]

-- strings.Fields
unfoldable pub fields : Text → List Text
unfolding fields_from add_word is_space
fields s = fields_from [] s

-- strings.CutPrefix
unfoldable pub cut_prefix : Text → Text → Option Text
cut_prefix [] s = some s
cut_prefix (c ∷ p) [] = none
cut_prefix (c ∷ p) (d ∷ s) = if c == d then cut_prefix p s else none

abbrev pub Lacks : ℕ → Text → Type 0
Lacks sep = All (λ c. c ≢ sep)

pub split-Lacks : (sep : ℕ) (s : Text) → Lacks sep s → split sep s ≡ s ∷ []
unfolding split
split-Lacks sep [] h = refl
split-Lacks sep (c ∷ s) (hc, hs) = ground (arith, split-Lacks sep s hs)

pub split-append : (sep : ℕ) (s t : Text) → Lacks sep s → split sep (s ++ sep ∷ t) ≡ s ∷ split sep t
unfolding split
split-append sep [] t h = ground arith
split-append sep (c ∷ s) t (hc, hs) = ground (arith, split-append sep s t hs)

pub contains-Lacks : (sep : ℕ) (s : Text) → Lacks sep s → contains sep s ≡ false
unfolding contains
contains-Lacks sep [] h = refl
contains-Lacks sep (c ∷ s) (hc, hs) = ground (arith, contains-Lacks sep s hs)

pub contains-append : (sep : ℕ) (s t : Text) → contains sep (s ++ sep ∷ t) ≡ true
unfolding contains
contains-append sep [] t = ground arith
contains-append sep (c ∷ s) t = ground (arith, contains-append sep s t)

trim_right-sane : (s : Text) → All (λ c. is_space c ≡ false) s → trim_right s ≡ s
unfolding trim_right
trim_right-sane [] h = refl
trim_right-sane (c ∷ s) (hc, hs) = rw (trim_right-sane s hs, hc)

-- A text with no space is left as it is.
pub trim_space-sane : (s : Text) → All (λ c. is_space c ≡ false) s → trim_space s ≡ s
unfolding trim_space
trim_space-sane [] h = refl
trim_space-sane (c ∷ s) (hc, hs) = rw hc (trim_right-sane (c ∷ s) (hc, hs))

-- There is always a first part.
pub split-ne-nil : (sep : ℕ) (s : Text) → split sep s ≢ []
unfolding split
split-ne-nil sep [] e = cc
split-ne-nil sep (c ∷ s) e = ne (c == sep) c (split sep s) e
  where
    ne : (b : Bool) (c : ℕ) (rest : List Text) → (if b then [] ∷ rest else cons_head c rest) ≢ []
    ne true c rest e = cc
    ne false c [] e = cc
    ne false c (p ∷ ps) e = cc

abbrev pub NoSpace : Text → Type 0
NoSpace = All (λ c. is_space c ≡ false)

fields_from-word :
    (cur w s : Text)
    → NoSpace w
    → fields_from cur (w ++ 32 ∷ s) ≡ add_word (cur ++ w) (fields_from [] s)
unfolding fields_from
fields_from-word cur [] s h = rw (append-nil cur) (unfold is_space in refl)
fields_from-word cur (c ∷ w) s (hc, hw) =
    rw (hc, fields_from)
      (fields_from-word (cur ++ c ∷ []) w s hw ∙ rw (append_assoc cur (c ∷ []) w))

fields_from-last : (cur w : Text) → NoSpace w → fields_from cur w ≡ add_word (cur ++ w) []
unfolding fields_from
fields_from-last cur [] h = rw (append-nil cur)
fields_from-last cur (c ∷ w) (hc, hw) =
    rw (hc, fields_from) (fields_from-last (cur ++ c ∷ []) w hw ∙ rw (append_assoc cur (c ∷ []) w))

add_word_ne : (w : Text) (ws : List Text) → w ≢ [] → add_word w ws ≡ w ∷ ws
unfolding add_word
add_word_ne [] ws h = absurd (h refl)
add_word_ne (c ∷ w) ws h = refl

-- A word and a space before a text are its first field.
pub fields-word : (w s : Text) → w ≢ [] → NoSpace w → fields (w ++ 32 ∷ s) ≡ w ∷ fields s
unfolding fields
fields-word w s ne h = fields_from-word [] w s h ∙ add_word_ne w (fields_from [] s) ne

pub fields-last : (w : Text) → w ≢ [] → NoSpace w → fields w ≡ w ∷ []
unfolding fields
fields-last w ne h = fields_from-last [] w h ∙ add_word_ne w [] ne
