-- ===== src/Converge/Names.antt =====
-- Counting tickets by their names, for the deletions of internal/controller/order_controller.go.
use mathlib.Core.List.{reverse, reverse-append}
use korder.Prelude.{
  ◌≤◌, ◌≡◌, refl, ◌∙◌, Bool, true, not, ◌&&◌, List, [], ◌∷◌, ◌++◌, append_assoc, arith, length,
  countb, filterb, allb, countb-append,
}
use korder.Prelude.Text.{Text, text_eq_refl, text_eq_iff}
use korder.Api.Ticket.{Ticket}
use korder.Converge.Store.{has_name}

-- Whether none of the tickets has the name of this one.
abbrev pub is_clear : List Ticket → Ticket → Bool
is_clear ts u = allb (λ t. not (has_name t.meta.name u)) ts

-- The tickets without those of the names of the first list, removed in its order.
unfoldable pub without : List Ticket → List Ticket → List Ticket
without [] held = held
without (t ∷ ts) held = without ts (filterb (λ u. not (has_name t.meta.name u)) held)

pub countb-filterb :
    (p q : Ticket → Bool) (ts : List Ticket) → countb p (filterb q ts) ≡ countb (λ u. q u && p u) ts
countb-filterb p q [] = refl
countb-filterb p q (t ∷ ts) = ground (arith, countb-filterb p q ts)

countb-eq :
    (p q : Ticket → Bool)
    → ((u : Ticket) → p u ≡ q u)
    → (ts : List Ticket) → countb p ts ≡ countb q ts
countb-eq p q same [] = refl
countb-eq p q same (t ∷ ts) = ground (arith, same t, countb-eq p q same ts)

pub countb-without :
    (p : Ticket → Bool) (ts held : List Ticket)
    → countb p (without ts held) ≡ countb (λ u. p u && is_clear ts u) held
unfolding without
countb-without p [] held = countb-eq p (λ u. p u && true) (λ u. ground arith) held
countb-without p (t ∷ ts) held =
    countb-without p ts (filterb (λ u. not (has_name t.meta.name u)) held)
    ∙ countb-filterb (λ u. p u && is_clear ts u) (λ u. not (has_name t.meta.name u)) held
    ∙ countb-eq _ (λ u. p u && is_clear (t ∷ ts) u) (λ u. ground arith) held

is_clear-append :
    (ts us : List Ticket) (u : Ticket) → is_clear (ts ++ us) u ≡ (is_clear ts u && is_clear us u)
is_clear-append [] us u = refl
is_clear-append (t ∷ ts) us u = ground (arith, is_clear-append ts us u)

is_clear-reverse : (ts : List Ticket) (u : Ticket) → is_clear (reverse ts) u ≡ is_clear ts u
is_clear-reverse [] u = refl
is_clear-reverse (t ∷ ts) u =
    rw (reverse-append (t ∷ []) ts, is_clear-append (reverse ts) (t ∷ []) u)
      (ground (arith, is_clear-reverse ts u))

-- No ticket of the list is clear of it.
none_clear : (front ts : List Ticket) → countb (is_clear (front ++ ts)) ts ≡ 0
none_clear front [] = refl
none_clear front (t ∷ ts) =
    let rest = none_clear (front ++ (t ∷ [])) ts in
    ground (
      arith,
      is_clear-append front (t ∷ ts) t,
      text_eq_refl t.meta.name,
      append_assoc front (t ∷ []) ts,
      rest,
    )

is_clear-unused :
    (ts : List Ticket) (u : Ticket) → countb (has_name u.meta.name) ts ≡ 0 → is_clear ts u ≡ true
is_clear-unused [] u unused = refl
is_clear-unused (t ∷ ts) u unused = ground (
  arith,
  text_eq_iff t.meta.name u.meta.name,
  text_eq_iff u.meta.name t.meta.name,
  is_clear-unused ts u,
)

-- Where each name occurs once, the tickets before the removed ones are clear of them.
all_clear :
    (kept removed : List Ticket)
    → ((name : Text) → countb (has_name name) (kept ++ removed) ≤ 1)
    → countb (is_clear removed) kept ≡ length kept
all_clear [] removed once = refl
all_clear (t ∷ kept) removed once =
    let rest = all_clear kept removed (λ name. ground (arith, once name)) in
    ground (
      arith,
      once t.meta.name,
      text_eq_refl t.meta.name,
      countb-append (has_name t.meta.name) kept removed,
      is_clear-unused removed t,
      rest,
    )

-- So many are clear of the removed ones.
pub countb-clear :
    (kept removed : List Ticket)
    → ((name : Text) → countb (has_name name) (kept ++ removed) ≤ 1)
    → countb (is_clear (reverse removed)) (kept ++ removed) ≡ length kept
countb-clear kept removed once =
    countb-eq (is_clear (reverse removed)) (is_clear removed) (is_clear-reverse removed)
      (kept ++ removed)
    ∙ omega (
      arith,
      countb-append (is_clear removed) kept removed,
      none_clear [] removed,
      all_clear kept removed once,
    )
