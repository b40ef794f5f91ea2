-- ===== src/PodWebhook/Select.antt =====
-- What selectBestTicket chooses, against a description of the best ticket.
use korder.Prelude.{
  ◌<◌, ◌≡◌, refl, ap, sym, subst, Bool, true, false, not, ◌||◌, Option, none, some, List, [], ◌∷◌,
  ◌++◌, arith, ltb, leb, allb, anyb, ◌⊎◌, inl, inr, Bool-cases,
}
use korder.Prelude.Int.{pos}
use korder.Api.Meta.{Pod}
use korder.Api.Ticket.{Ticket}
use korder.PodWebhook.Find.{is_available}
use korder.PodWebhook.Choose.{score, select_from, select_best}

-- An available ticket has a smaller score; it has no greater one.
abbrev pub below : Pod → Ticket → Ticket → Bool
below pod t u = not (is_available u) || ltb (score pod u) (score pod t)

abbrev pub at_most : Pod → Ticket → Ticket → Bool
at_most pod t u = not (is_available u) || leb (score pod u) (score pod t)

-- The first available ticket of the list with the greatest score.
abbrev pub IsFirstBest : Pod → List Ticket → Ticket → Type 0
IsFirstBest pod ts t =
    (is_available t ≡ true)
    × (before : List Ticket) × (later : List Ticket) × (ts ≡ before ++ t ∷ later)
    × (allb (below pod t) before ≡ true)
    × (allb (at_most pod t) later ≡ true)

abbrev pub IsChoice : Pod → List Ticket → Option Ticket → Type 0
IsChoice pod ts none = anyb is_available ts ≡ false
IsChoice pod ts (some t) = IsFirstBest pod ts t

-- A ticket in front that is below the best one.
IsFirstBest-later :
    (pod : Pod) (u t : Ticket) (ts : List Ticket)
    → below pod t u ≡ true
    → IsFirstBest pod ts t
    → IsFirstBest pod (u ∷ ts) t
IsFirstBest-later pod u t ts h (available, before, later, parts, less, most) =
    (available, u ∷ before, later, ap (λ us. u ∷ us) parts, ground arith, most)

-- The loop keeps the best ticket so far, or finds a better one.
select_from-some :
    (pod : Pod) (b : Ticket) (ts : List Ticket)
    → ((select_from pod (some b) (pos (score pod b)) ts ≡ some b)
        × (allb (at_most pod b) ts ≡ true))
      ⊎ ((t : Ticket) × (select_from pod (some b) (pos (score pod b)) ts ≡ some t)
          × (score pod b < score pod t)
          × IsFirstBest pod ts t)
unfolding select_from
select_from-some pod b [] = inl (refl, refl)
select_from-some pod b (u ∷ ts) = elim (Bool-cases (is_available u)) [
  | inr closed ↦ elim (select_from-some pod b ts) [
    | inl (same, most) ↦ inl (ground arith, ground arith)
    | inr (t, chosen, more, best) ↦
        inr (t, ground arith, more, IsFirstBest-later pod u t ts (ground arith) best)
  ]
  | inl available ↦ elim (Bool-cases (ltb (score pod b) (score pod u))) [
    | inr lower ↦ elim (select_from-some pod b ts) [
      | inl (same, most) ↦ inl (ground arith, ground arith)
      | inr (t, chosen, more, best) ↦
          inr (t, ground arith, more, IsFirstBest-later pod u t ts (ground arith) best)
    ]
    | inl higher ↦ elim (select_from-some pod u ts) [
      | inl (same, most) ↦
          inr (u, ground arith, ground arith, (available, [], ts, refl, refl, most))
      | inr (t, chosen, more, best) ↦
          inr (t, ground arith, ground arith, IsFirstBest-later pod u t ts (ground arith) best)
    ]
  ]
]

IsChoice-later :
    (pod : Pod) (u : Ticket) (ts : List Ticket) (best : Option Ticket)
    → is_available u ≡ false
    → IsChoice pod ts best
    → IsChoice pod (u ∷ ts) best
IsChoice-later pod u ts none closed h = ground arith
IsChoice-later pod u ts (some t) closed h = IsFirstBest-later pod u t ts (ground arith) h

-- The chosen ticket is the first of the available ones with the greatest score, and there is none
-- only if no ticket is available.
pub select_best-IsChoice : (pod : Pod) (ts : List Ticket) → IsChoice pod ts (select_best pod ts)
unfolding select_best select_from
select_best-IsChoice pod [] = refl
select_best-IsChoice pod (u ∷ ts) = elim (Bool-cases (is_available u)) [
  | inr closed ↦
      let skipped : select_best pod (u ∷ ts) ≡ select_best pod ts = ground arith in
      subst (IsChoice pod (u ∷ ts)) (sym skipped)
        (IsChoice-later pod u ts (select_best pod ts) closed (select_best-IsChoice pod ts))
  | inl available ↦ elim (select_from-some pod u ts) [
    | inl (same, most) ↦
        let first : select_best pod (u ∷ ts) ≡ some u = ground arith in
        subst (IsChoice pod (u ∷ ts)) (sym first) (available, [], ts, refl, refl, most)
    | inr (t, chosen, more, best) ↦
        let other : select_best pod (u ∷ ts) ≡ some t = ground arith in
        subst (IsChoice pod (u ∷ ts)) (sym other) (IsFirstBest-later pod u t ts (ground arith) best)
  ]
]
