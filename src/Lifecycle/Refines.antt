-- ===== src/Lifecycle/Refines.antt =====
-- The history of a ticket as a path of the machine.
use korder.Prelude.{
  ℕ, ◌≡◌, refl, ap, ap₂, sym, subst, inl, inr, Bool, true, false, Option, none, some, [], ◌∷◌,
  arith, allb,
}
use korder.Prelude.Text.{Text, text_eq, text_eq_refl, text_eq_sound}
use korder.Api.Meta.{key_of}
use korder.Api.Ticket.{Ticket, TicketPhase}
use korder.Client.{Cluster, ok, get_ticket}
use korder.TicketController.Diagram.{allowed, reconcile_found-allowed}
use korder.TicketController.Reconcile.{reconcile, reconcile_found}
use korder.PodWebhook.Defaulter.{default}
use korder.Lifecycle.Machine.{
  View, Move, stay, claim, Moves, here, next, is_settled, Moves-Settled, edge-Move,
}
use korder.Lifecycle.History.{stored, Step, reconciles, binds, edits, History, start, extend}
use korder.Lifecycle.Stored.{IsReached, stored-IsReached}
use korder.Lifecycle.Binding.{default_claims, IsClaim}

abbrev seen : TicketPhase → Option Text → View
seen phase holder = record { phase = phase; holder = holder }

abbrev pub view : Ticket → View
view t = seen t.status.phase t.status.claimed_pod

same_holder : Option Text → Option Text → Bool
same_holder none none = true
same_holder (some a) (some b) = text_eq a b
same_holder _ _ = false

same_holder_refl : (a : Option Text) → same_holder a a ≡ true
unfolding same_holder
same_holder_refl none = refl
same_holder_refl (some a) = text_eq_refl a

same_holder_sound : (a b : Option Text) → same_holder a b ≡ true → a ≡ b
unfolding same_holder
same_holder_sound none none h = refl
same_holder_sound (some a) (some b) h = ap some (text_eq_sound a b h)
same_holder_sound none (some b) h = cc
same_holder_sound (some a) none h = cc

reconcile-reads :
    (env : Cluster) (fuel : ℕ) (t : Ticket)
    → env.ticket_at [] (key_of t.meta) ≡ ok t
    → reconcile env fuel (key_of t.meta) []
      ≡ reconcile_found env fuel t (get_ticket (key_of t.meta) ∷ [])
unfolding reconcile
reconcile-reads env fuel t found = ground arith

reached-Move :
    (t s : Ticket)
    → IsReached t.status.phase (same_holder t.status.claimed_pod) s
    → Move (view t) (view s)
reached-Move t s (moved, holder) =
    let same = same_holder_sound t.status.claimed_pod s.status.claimed_pod holder in
    let p = t.status.phase in
    let from_t = λ (h : Option Text). Move (view t) (seen s.status.phase h) in
    elim moved [
      | inl unmoved ↦ subst (Move (view t)) (ap₂ seen (sym unmoved) same) (stay (view t))
      | inr along ↦ subst from_t same (edge-Move p s.status.phase t.status.claimed_pod along)
    ]

reconcile-Move :
    (env : Cluster) (fuel : ℕ) (t : Ticket)
    → env.ticket_at [] (key_of t.meta) ≡ ok t
    → Move (view t) (view (stored env t (reconcile env fuel (key_of t.meta) []).1))
reconcile-Move env fuel t found =
    let kept = same_holder t.status.claimed_pod in
    let holder = same_holder_refl t.status.claimed_pod in
    let start = get_ticket (key_of t.meta) ∷ [] in
    let calls = (reconcile_found env fuel t start).1 in
    let may : allb (allowed t.status.phase kept) calls ≡ true =
      reconcile_found-allowed env kept fuel t start holder in
    let reached = stored-IsReached t.status.phase kept env t calls may (inl refl, holder) in
    subst (λ r. Move (view t) (view (stored env t r.1))) (sym (reconcile-reads env fuel t found))
      (reached-Move t (stored env t calls) reached)

claim-Move : (t s : Ticket) → IsClaim t s → Move (view t) (view s)
claim-Move t s (was, is, pod, holder) =
    subst (Move (view t)) (sym (ap₂ seen is holder)) (claim (view t) pod was)

-- A step of a ticket is one move of the machine.
pub Step-Move : {t u : Ticket} → Step t u → Move (view t) (view u)
Step-Move (reconciles env fuel found) = reconcile-Move env fuel _ found
Step-Move (binds {t} env pod fresh) = elim (default_claims env pod t fresh) [
  | inl unchanged ↦ subst (λ s. Move (view t) (view s)) (sym unchanged) (stay (view t))
  | inr claimed ↦ claim-Move t (stored env t (default env pod []).1) claimed
]
Step-Move (edits meta spec) = stay _

-- The detailed program refines the machine: in a history of reconciliations that have read the
-- ticket as it is stored, of bindings by the pod webhook that have read it so too, and of changes to
-- its metadata and specification, with whatever answers and failures of the server otherwise, the
-- phase and the holder of the ticket follow a path of the machine, one move for each step at most.
pub History-Moves : {t u : Ticket} → History t u → Moves (view t) (view u)
History-Moves start = here
History-Moves (extend history step) = next (History-Moves history) (Step-Move step)

-- A ticket that a pod has claimed is held by that pod for good: in every history of such steps it
-- stays claimed or expires, and never gets another holder.
pub History-keeps_holder :
    {t u : Ticket}
    → History t u
    → t.status.phase ≡ TicketPhase.claimed
    → (is_settled u.status.phase ≡ true) × (u.status.claimed_pod ≡ t.status.claimed_pod)
History-keeps_holder history was = Moves-Settled (History-Moves history) (ground arith)
