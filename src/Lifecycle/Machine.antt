-- ===== src/Lifecycle/Machine.antt =====
-- The machine of a ticket: its phase, and the pod that holds it.
use korder.Prelude.{◌≡◌, refl, ◌∙◌, Bool, true, ◌||◌, Option, some, arith}
use korder.Prelude.Text.{Text}
use korder.Api.Ticket.{TicketPhase, is_claimed, is_expired}
use korder.TicketController.Diagram.{is_open, edge}

pub record View : Type 0 where
  pub phase : TicketPhase
  pub holder : Option Text

pub data Move : View → View → Type 0 where
  stay : (v : View) → Move v v
  wait : (v : View) → is_open v.phase ≡ true → Move v (record v { phase = TicketPhase.pending })
  hold : (v : View) → is_open v.phase ≡ true → Move v (record v { phase = TicketPhase.ready })
  claim :
      (v : View) (pod : Text)
      → v.phase ≡ TicketPhase.ready
      → Move v (record { phase = TicketPhase.claimed; holder = some pod })
  expire : (v : View) → Move v (record v { phase = TicketPhase.expired })

pub data Moves (v : View) : View → Type 0 where
  here : Moves v v
  next : {w x : View} → Moves v w → Move w x → Moves v x

-- Claimed, or expired.
abbrev pub is_settled : TicketPhase → Bool
is_settled phase = is_claimed phase || is_expired phase

-- A settled ticket stays settled and keeps its holder.
abbrev Settled : View → View → Type 0
Settled v w = (is_settled w.phase ≡ true) × (w.holder ≡ v.holder)

Move-Settled : {v w : View} → Move v w → is_settled v.phase ≡ true → Settled v w
Move-Settled (stay v) h = (h, refl)
Move-Settled (wait v opened) h = absurd (ground arith)
Move-Settled (hold v opened) h = absurd (ground arith)
Move-Settled (claim v pod at_ready) h = absurd (ground arith)
Move-Settled (expire v) h = (refl, refl)

pub Moves-Settled : {v w : View} → Moves v w → is_settled v.phase ≡ true → Settled v w
Moves-Settled here h = (h, refl)
Moves-Settled (next path move) h =
    let (settled, same) = Moves-Settled path h in
    let (settled', same') = Move-Settled move settled in (settled', same' ∙ same)

-- An edge of the diagram of phases is a move that keeps the holder.
pub edge-Move :
    (p q : TicketPhase) (holder : Option Text)
    → edge p q ≡ true
    → Move (record { phase = p; holder = holder }) (record { phase = q; holder = holder })
edge-Move p TicketPhase.expired holder h = expire _
edge-Move p TicketPhase.pending holder h = wait _ h
edge-Move p TicketPhase.ready holder h = hold _ h
edge-Move TicketPhase.claimed TicketPhase.claimed holder h = stay _
edge-Move p q holder h = absurd (ground arith)
