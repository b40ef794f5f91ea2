-- ===== src/TicketController/Phases.antt =====
-- The phases that Reconcile writes, as a diagram over the phase that it read.
use korder.Prelude.{ℕ, ◌≡◌, refl, Bool, true, [], ◌∷◌, arith, allb}
use korder.Api.Meta.{Key}
use korder.Api.Ticket.{Ticket, TicketPhase}
use korder.Client.{Cluster, Call, Trace, ok, calls, get_ticket}
use korder.TicketController.Reconcile.{reconcile_found, reconcile}
use korder.TicketController.Diagram.{edge, allowed, reconcile_found-allowed}

abbrev pub follows : TicketPhase → Call → Bool
follows from (Call.update_ticket_status t) = edge from t.status.phase
follows from _ = true

-- With every claim allowed, what is left is the diagram.
allowed-follows :
    (from : TicketPhase) (tr : Trace)
    → allb (allowed from (λ claim. true)) tr ≡ allb (follows from) tr
allowed-follows from [] = refl
allowed-follows from (c ∷ tr) = ground (arith, allowed-follows from tr)

-- Every status that Reconcile writes follows the diagram from the phase that it read, on every
-- branch, with any answers of the server and any fuel: an open ticket is written as pending, ready
-- or expired, a claimed one as claimed or expired, an expired one as expired, and a ticket in a
-- phase that the program does not know only as expired.
pub reconcile-follows :
    (env : Cluster) (fuel : ℕ) (key : Key) (t : Ticket) (tr : Trace)
    → env.ticket_at tr key ≡ ok t
    → allb (follows t.status.phase) tr ≡ true
    → allb (follows t.status.phase) (calls (reconcile env fuel key tr)) ≡ true
unfolding reconcile
reconcile-follows env fuel key t tr found before =
    let tr' = get_ticket key ∷ tr in
    ground (
      arith,
      allowed-follows t.status.phase (reconcile_found env fuel t tr').1,
      allowed-follows t.status.phase tr',
      reconcile_found-allowed env (λ claim. true) fuel t tr' refl,
    )
