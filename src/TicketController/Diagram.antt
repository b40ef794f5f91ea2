-- ===== src/TicketController/Diagram.antt =====
-- What the handlers of the ticket controller write into a status: the phases, and the pod that has
-- claimed the ticket.
use korder.Prelude.{
  ℕ, zero, suc, ◌≡◌, refl, Bool, true, false, ◌&&◌, Option, none, some, ◌∷◌, arith, allb, inl, inr,
  Option-cases,
}
use korder.Prelude.Text.{Text}
use korder.Api.Meta.{Time}
use korder.Api.Ticket.{Ticket, TicketPhase, TicketLifecycle}
use korder.Client.{Cluster, Call, Trace, ok, M, Return, read_clock, get_pod, Reply-cases}
use korder.TicketController.Write.{parse_key, with_status, update_ticket_status}
use korder.TicketController.Guardian.{delete_guardian_pod, create_guardian_pod, handle_deletion}
use korder.TicketController.Activate.{
  with_times, with_activation, with_expiration, with_node, activated, pending_step, ready_step,
  handle_pending, handle_ready,
}
use korder.TicketController.Retire.{
  handle_claimed, handle_expired, handle_expiration, clean_up, retain_expired, delete_after,
  delete_ticket_now,
}
use korder.TicketController.Reconcile.{is_ticket_expired, by_phase, reconcile_found}

-- A ticket that is neither claimed nor expired.
abbrev pub is_open : TicketPhase → Bool
is_open TicketPhase.new = true
is_open TicketPhase.pending = true
is_open TicketPhase.ready = true
is_open _ = false

-- The diagram: an open ticket may be written as pending or ready, a claimed one stays claimed, and
-- every ticket may expire.
abbrev pub edge : TicketPhase → TicketPhase → Bool
edge from TicketPhase.expired = true
edge from TicketPhase.pending = is_open from
edge from TicketPhase.ready = is_open from
edge TicketPhase.claimed TicketPhase.claimed = true
edge from to = false

-- A status may be written if the diagram has the edge to its phase, and if its claim is kept.
abbrev pub allowed : TicketPhase → (Option Text → Bool) → Call → Bool
allowed from kept (Call.update_ticket_status t) =
    edge from t.status.phase && kept t.status.claimed_pod
allowed from kept _ = true

with_times-claimed_pod :
    (env : Cluster) (t t' : Ticket) (at_time : Time)
    → with_times env t at_time ≡ ok t'
    → t'.status.claimed_pod ≡ t.status.claimed_pod
unfolding with_times with_activation with_expiration
with_times-claimed_pod env t t' at_time h = ground arith

module _ (env : Cluster) (from : TicketPhase) (kept : Option Text → Bool) where
  abbrev IsKept : Ticket → Type 0
  IsKept t = kept t.status.claimed_pod ≡ true

  abbrev good : Trace → Bool
  good = allb (allowed from kept)

  update_ticket_status-good :
      (t : Ticket) (phase : TicketPhase) (reason message : Text) (tr : Trace)
      → good (update_ticket_status env t phase reason message tr).1
        ≡ (edge from phase && kept t.status.claimed_pod && good tr)
  unfolding update_ticket_status with_status
  update_ticket_status-good t phase reason message tr = ground arith

  delete_guardian_pod-good :
      (t : Ticket) (tr : Trace) → good (delete_guardian_pod env t tr).1 ≡ good tr
  unfolding delete_guardian_pod
  delete_guardian_pod-good t tr = ground arith

  create_guardian_pod-good :
      (t : Ticket) (tr : Trace) → good (create_guardian_pod env t tr).1 ≡ good tr
  unfolding create_guardian_pod
  create_guardian_pod-good t tr = ground arith

  handle_deletion-good : (t : Ticket) (tr : Trace) → good (handle_deletion env t tr).1 ≡ good tr
  unfolding handle_deletion
  handle_deletion-good t tr = ground (arith, delete_guardian_pod-good t tr)

  -- A handler whose writes are allowed, for a ticket whose claim is kept.
  abbrev IsGood : (Ticket → M Return) → Type 0
  IsGood k = (t : Ticket) (tr : Trace) → IsKept t → good (k t tr).1 ≡ good tr

  handle_claimed-IsGood : from ≡ TicketPhase.claimed → IsGood (handle_claimed env)
  unfolding handle_claimed
  handle_claimed-IsGood at_claimed t tr holder =
      grind (arith, delete_guardian_pod-good, update_ticket_status-good)

  retain_expired-IsGood : IsGood (retain_expired env)
  unfolding retain_expired
  retain_expired-IsGood t tr holder = grind (arith, update_ticket_status-good)

  clean_up-good :
      (t : Ticket) (l : Option TicketLifecycle) (tr : Trace)
      → IsKept t
      → good (clean_up env t l tr).1 ≡ good tr
  unfolding clean_up delete_after delete_ticket_now
  clean_up-good t none tr holder = retain_expired-IsGood t tr holder
  clean_up-good t (some l) tr holder = ground (arith, retain_expired-IsGood t tr holder)

  handle_expired-IsGood : IsGood (handle_expired env)
  unfolding handle_expired
  handle_expired-IsGood t tr holder = ground (
    arith,
    delete_guardian_pod-good t tr,
    clean_up-good t t.spec.lifecycle (delete_guardian_pod env t tr).1 holder,
  )

  handle_expiration-IsGood : IsGood (handle_expiration env)
  unfolding handle_expiration
  handle_expiration-IsGood t tr holder =
      grind (arith, handle_expired-IsGood t tr holder, update_ticket_status-good)

  module _ (is_opened : is_open from ≡ true) where
    pending_step-IsGood : (k : Ticket → M Return) → IsGood k → IsGood (pending_step env k)
    unfolding pending_step with_activation activated
    pending_step-IsGood k h t tr holder = elim (Reply-cases (with_times env t (env.now tr))) [
      | inr (e, bad) ↦ grind (arith, update_ticket_status-good)
      | inl (t', timed) ↦
          let made = (create_guardian_pod env t' (read_clock ∷ tr)).1 in
          let same = with_times-claimed_pod env t t' (env.now tr) timed in
          grind (
            arith,
            h t' made (ground arith),
            create_guardian_pod-good t' (read_clock ∷ tr),
            update_ticket_status-good,
          )
    ]

    ready_step-IsGood : (k : Ticket → M Return) → IsGood k → IsGood (ready_step env k)
    unfolding ready_step with_node
    ready_step-IsGood k h t tr holder = elim (Option-cases t.status.guardian_pod) [
      | inl no_pod ↦ ground arith
      | inr (name, some_pod) ↦ elim (Option-cases (parse_key name)) [
        | inl bad ↦ ground (arith, h t tr holder)
        | inr (key, parsed) ↦
            grind (arith, h t (get_pod key ∷ tr) holder, update_ticket_status-good)
      ]
    ]

    mutual
      unfolding handle_pending

      handle_pending-IsGood : (fuel : ℕ) → IsGood (handle_pending env fuel)
      handle_pending-IsGood zero t tr holder = refl
      handle_pending-IsGood (suc fuel) t tr holder =
          pending_step-IsGood (handle_ready env fuel) (handle_ready-IsGood fuel) t tr holder

      handle_ready-IsGood : (fuel : ℕ) → IsGood (handle_ready env fuel)
      handle_ready-IsGood zero t tr holder = refl
      handle_ready-IsGood (suc fuel) t tr holder =
          ready_step-IsGood (handle_pending env fuel) (handle_pending-IsGood fuel) t tr holder

by_phase-IsGood :
    (env : Cluster) (from : TicketPhase) (kept : Option Text → Bool) (fuel : ℕ)
    → IsGood env from kept (by_phase env fuel from)
unfolding by_phase
by_phase-IsGood env TicketPhase.new kept fuel t tr holder =
    handle_pending-IsGood env TicketPhase.new kept refl fuel t tr holder
by_phase-IsGood env TicketPhase.pending kept fuel t tr holder =
    handle_pending-IsGood env TicketPhase.pending kept refl fuel t tr holder
by_phase-IsGood env TicketPhase.ready kept fuel t tr holder =
    handle_ready-IsGood env TicketPhase.ready kept refl fuel t tr holder
by_phase-IsGood env TicketPhase.claimed kept fuel t tr holder =
    handle_claimed-IsGood env TicketPhase.claimed kept refl t tr holder
by_phase-IsGood env TicketPhase.expired kept fuel t tr holder =
    handle_expired-IsGood env TicketPhase.expired kept t tr holder
by_phase-IsGood env (TicketPhase.other p) kept fuel t tr holder = refl

-- All that Reconcile does to a ticket that it has read is allowed.
pub reconcile_found-allowed :
    (env : Cluster) (kept : Option Text → Bool) (fuel : ℕ) (t : Ticket) (tr : Trace)
    → kept t.status.claimed_pod ≡ true
    → allb (allowed t.status.phase kept) (reconcile_found env fuel t tr).1
      ≡ allb (allowed t.status.phase kept) tr
unfolding reconcile_found is_ticket_expired
reconcile_found-allowed env kept fuel t tr holder =
    let p = t.status.phase in
    let later = read_clock ∷ tr in
    ground (
      arith,
      handle_deletion-good env p kept t tr,
      handle_expiration-IsGood env p kept t later holder,
      by_phase-IsGood env p kept fuel t later holder,
      by_phase-IsGood env p kept fuel t tr holder,
    )
