-- ===== src/TicketController/Recreate/Returns.antt =====
-- Whether Reconcile returns: the handlers that call each other, at a coherent server.
use korder.Prelude.{
  ℕ, suc, ◌≡◌, refl, true, false, none, some, ◌∷◌, arith, is_some, inl, inr, Option-cases,
  Bool-cases, sym, ◌∙◌, ◌≢◌,
}
use korder.Prelude.Text.{Text}
use korder.Api.Meta.{Key, Pod, key_of}
use korder.Api.Ticket.{Ticket, TicketPhase}
use korder.Client.{
  Cluster, Error, is_already_exists, ok, err, Reply-cases, Trace, Return, M, read_clock, get_ticket,
  get_pod,
}
use korder.TicketController.Write.{update_ticket_status}
use korder.TicketController.Guardian.{
  guardian_pod_of, create_guardian_pod, delete_guardian_pod, handle_deletion,
}
use korder.TicketController.Activate.{
  with_times, pending_step, ready_step, handle_pending, handle_ready,
}
use korder.TicketController.Retire.{
  handle_claimed, handle_expired, handle_expiration, clean_up, retain_expired, delete_after,
  delete_ticket_now,
}
use korder.TicketController.Reconcile.{is_ticket_expired, by_phase, reconcile_found, reconcile}
use korder.TicketController.Recreate.{
  guardian_key, NamesGuardian, says_missing, IsCoherent, SameButTimes, with_times-same,
}

module _ (env : Cluster) where
  update_ticket_status_returns :
      (t : Ticket) (phase : TicketPhase) (reason message : Text) (tr : Trace)
      → is_some (update_ticket_status env t phase reason message tr).0 ≡ true
  unfolding update_ticket_status
  update_ticket_status_returns t phase reason message tr = ground arith

  -- Where the guardian pod is there to be read, handleReadyTicket does not go back to
  -- handlePendingTicket.
  ready_step_returns :
      (k : Ticket → M Return) (t : Ticket) (tr : Trace)
      → NamesGuardian t
      → says_missing (env.pod_at tr (guardian_key t)) ≡ false
      → is_some (ready_step env k t tr).0 ≡ true
  unfolding ready_step
  ready_step_returns k t tr names present = elim (Option-cases t.status.guardian_pod) [
    | inl no_pod ↦ ground arith
    | inr (name, some_pod) ↦
        let parsed = names name some_pod in grind (arith, update_ticket_status_returns)
  ]

  -- Nor does it fail to return where handlePendingTicket returns.
  ready_step_passes :
      (k : Ticket → M Return) (t : Ticket) (tr : Trace)
      → ((tr' : Trace) → NamesGuardian t → is_some (k t tr').0 ≡ true)
      → NamesGuardian t
      → is_some (ready_step env k t tr).0 ≡ true
  unfolding ready_step
  ready_step_passes k t tr h names = elim (Option-cases t.status.guardian_pod) [
    | inl no_pod ↦ ground arith
    | inr (name, some_pod) ↦
        let key = guardian_key t in
        let parsed = names name some_pod in
        grind (arith, h (get_pod key ∷ tr) names, update_ticket_status_returns)
  ]

  -- A handler that returns once the guardian pod is there to be read.
  abbrev ReturnsIfSeen : (Ticket → M Return) → Type 0
  ReturnsIfSeen k =
      (t : Ticket) (tr : Trace)
      → NamesGuardian t
      → says_missing (env.pod_at tr (guardian_key t)) ≡ false
      → is_some (k t tr).0 ≡ true

  key-guardian_pod_of : (t : Ticket) → key_of (guardian_pod_of env t).meta ≡ guardian_key t
  unfolding guardian_pod_of
  key-guardian_pod_of t = refl

  create_guardian_pod_seen :
      (coherent : IsCoherent env) (t : Ticket) (tr : Trace) (e : Error)
      → (create_guardian_pod env t tr).0 ≡ some (err e)
      → is_already_exists e ≡ true
      → says_missing (env.pod_at (create_guardian_pod env t tr).1 (guardian_key t)) ≡ false
  unfolding create_guardian_pod
  create_guardian_pod_seen coherent t tr e failed exists =
      let pod = guardian_pod_of env t in
      elim (Reply-cases (env.set_controller_reference t.meta pod.meta)) [
        | inr (e', bad) ↦ absurd (ground (arith, coherent.owner_error t.meta pod.meta e' bad))
        | inl (m, owned) ↦
            let pod' : Pod = record pod { meta = m } in
            ground (
              arith,
              coherent.same_key t.meta pod.meta m owned,
              key-guardian_pod_of t,
              coherent.seen tr pod',
            )
      ]

  create_guardian_pod_returns : (t : Ticket) (tr : Trace) → (create_guardian_pod env t tr).0 ≢ none
  unfolding create_guardian_pod
  create_guardian_pod_returns t tr = ground arith

  NamesGuardian-same : (t t' : Ticket) → SameButTimes t t' → NamesGuardian t → NamesGuardian t'
  NamesGuardian-same t t' same names name h =
      ground (arith, same.meta, names name (sym same.guardian ∙ h))

  pending_step_returns :
      (coherent : IsCoherent env) (k : Ticket → M Return)
      → ReturnsIfSeen k
      → (t : Ticket) (tr : Trace) → NamesGuardian t
      → is_some (pending_step env k t tr).0 ≡ true
  unfolding pending_step
  pending_step_returns coherent k h t tr names =
      elim (Reply-cases (with_times env t (env.now tr))) [
        | inr (e, bad) ↦ grind (arith, update_ticket_status_returns)
        | inl (t', good) ↦
            let names' = NamesGuardian-same t t' (with_times-same env t (env.now tr) good) names in
            let made = create_guardian_pod env t' (read_clock ∷ tr) in
            elim (Option-cases made.0) [
              | inl never ↦ absurd (create_guardian_pod_returns t' (read_clock ∷ tr) never)
              | inr (ok pod, created) ↦ grind (arith, update_ticket_status_returns)
              | inr (err e, failed) ↦
                  let seen = create_guardian_pod_seen coherent t' (read_clock ∷ tr) e failed in
                  elim (Bool-cases (is_already_exists e)) [
                    | inl exists ↦ ground (arith, h t' made.1 names' (seen exists))
                    | inr another ↦ grind (arith, update_ticket_status_returns)
                  ]
            ]
      ]

  handle_ready_returns : (fuel : ℕ) → ReturnsIfSeen (handle_ready env (suc fuel))
  unfolding handle_ready
  handle_ready_returns fuel = ready_step_returns (handle_pending env fuel)

  handle_pending_returns :
      (coherent : IsCoherent env) (fuel : ℕ) (t : Ticket) (tr : Trace)
      → NamesGuardian t
      → is_some (handle_pending env (suc (suc fuel)) t tr).0 ≡ true
  unfolding handle_pending
  handle_pending_returns coherent fuel =
      pending_step_returns coherent (handle_ready env (suc fuel)) (handle_ready_returns fuel)

  delete_guardian_pod_returns : (t : Ticket) (tr : Trace) → (delete_guardian_pod env t tr).0 ≢ none
  unfolding delete_guardian_pod
  delete_guardian_pod_returns t tr = ground arith

  clean_up_returns :
      (t : Ticket) (tr : Trace) → is_some (clean_up env t t.spec.lifecycle tr).0 ≡ true
  unfolding clean_up retain_expired delete_after delete_ticket_now update_ticket_status
  clean_up_returns t tr = ground arith

  handle_expired_returns : (t : Ticket) (tr : Trace) → is_some (handle_expired env t tr).0 ≡ true
  unfolding handle_expired
  handle_expired_returns t tr =
      ground (
        arith,
        delete_guardian_pod_returns t tr,
        clean_up_returns t (delete_guardian_pod env t tr).1,
      )

  by_phase_returns :
      (coherent : IsCoherent env) (fuel : ℕ) (p : TicketPhase) (t : Ticket) (tr : Trace)
      → NamesGuardian t
      → is_some (by_phase env (suc (suc (suc fuel))) p t tr).0 ≡ true
  unfolding by_phase handle_claimed handle_ready
  by_phase_returns coherent fuel TicketPhase.new t tr names =
      handle_pending_returns coherent (suc fuel) t tr names
  by_phase_returns coherent fuel TicketPhase.pending t tr names =
      handle_pending_returns coherent (suc fuel) t tr names
  by_phase_returns coherent fuel TicketPhase.ready t tr names =
      ready_step_passes (handle_pending env (suc (suc fuel))) t tr
        (handle_pending_returns coherent fuel t) names
  by_phase_returns coherent fuel TicketPhase.claimed t tr names =
      grind (arith, delete_guardian_pod_returns, update_ticket_status_returns)
  by_phase_returns coherent fuel TicketPhase.expired t tr names = handle_expired_returns t tr
  by_phase_returns coherent fuel (TicketPhase.other p) t tr names = refl

  reconcile_found_returns :
      (coherent : IsCoherent env) (fuel : ℕ) (t : Ticket) (tr : Trace)
      → NamesGuardian t
      → is_some (reconcile_found env (suc (suc (suc fuel))) t tr).0 ≡ true
  unfolding reconcile_found is_ticket_expired handle_deletion handle_expiration
  reconcile_found_returns coherent fuel t tr names =
      let later = read_clock ∷ tr in
      grind (
        arith,
        by_phase_returns coherent fuel t.status.phase t later names,
        by_phase_returns coherent fuel t.status.phase t tr names,
        handle_expired_returns,
        update_ticket_status_returns,
        delete_guardian_pod_returns,
      )

-- Reconcile returns, with three calls of the two handlers at most, if the server is coherent (a pod
-- that it refuses to create again can be read) and the ticket's reference, if it has one, names its
-- guardian pod.
pub reconcile_returns :
    (env : Cluster) (fuel : ℕ) (key : Key) (t : Ticket) (tr : Trace)
    → IsCoherent env
    → env.ticket_at tr key ≡ ok t
    → NamesGuardian t
    → is_some (reconcile env (suc (suc (suc fuel))) key tr).0 ≡ true
unfolding reconcile
reconcile_returns env fuel key t tr coherent found names =
    ground (arith, reconcile_found_returns env coherent fuel t (get_ticket key ∷ tr) names)
