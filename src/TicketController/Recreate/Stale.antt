-- ===== src/TicketController/Recreate/Stale.antt =====
-- The loop at a server whose answers about the guardian pod disagree.
use korder.Prelude.{
  ℕ, zero, suc, ◌≡◌, refl, true, none, some, ◌∷◌, arith, inl, inr, Option-cases, ◌∙◌,
}
use korder.Prelude.Text.{Text}
use korder.Api.Meta.{ObjectMeta, Key, Pod, Time}
use korder.Api.Ticket.{Ticket}
use korder.Client.{
  Cluster, Error, is_already_exists, ok, err, Reply-cases, Trace, Return, M, read_clock, get_pod,
}
use korder.TicketController.Write.{parse_key}
use korder.TicketController.Guardian.{guardian_pod_of, create_guardian_pod}
use korder.TicketController.Activate.{
  with_activation, with_expiration, with_times, pending_step, ready_step, handle_pending,
  handle_ready,
}
use korder.TicketController.Recreate.{says_exists, says_missing}

-- A server that cannot read the pods that it refuses to create.
pub record IsStale (env : Cluster) : Type 0 where
  pub missing : (tr : Trace) (k : Key) → says_missing (env.pod_at tr k) ≡ true
  pub exists : (tr : Trace) (p : Pod) → says_exists (env.created_pod tr p) ≡ true
  pub owns :
      (owner m : ObjectMeta) → (m' : ObjectMeta) × (env.set_controller_reference owner m ≡ ok m')

module _ (env : Cluster) (stale : IsStale env) where
  -- A handler that never returns on a ticket with a reference and no window.
  abbrev NeverReturns : (Ticket → M Return) → Type 0
  NeverReturns k =
      (t : Ticket) (tr : Trace) (name : Text)
      → t.status.guardian_pod ≡ some name
      → t.spec.window ≡ none
      → (k t tr).0 ≡ none

  with_times_no_window :
      (t : Ticket) (at_time : Time)
      → t.spec.window ≡ none
      → (t' : Ticket) × (with_times env t at_time ≡ ok t')
        × (t'.status.guardian_pod ≡ t.status.guardian_pod)
        × (t'.spec.window ≡ none)
  unfolding with_times with_activation with_expiration
  with_times_no_window t at_time h =
      (with_activation t at_time, ground arith, ground arith, ground arith)

  create_guardian_pod_exists :
      (t : Ticket) (tr : Trace)
      → (e : Error) × ((create_guardian_pod env t tr).0 ≡ some (err e))
        × (is_already_exists e ≡ true)
  unfolding create_guardian_pod
  create_guardian_pod_exists t tr =
      let pod = guardian_pod_of env t in
      let (m, owned) = stale.owns t.meta pod.meta in
      let pod' : Pod = record pod { meta = m } in
      let refused = stale.exists tr pod' in
      elim (Reply-cases (env.created_pod tr pod')) [
        | inl (made, h) ↦ absurd (ground arith)
        | inr (e, h) ↦ (e, ground arith, ground arith)
      ]

  pending_step_never : (k : Ticket → M Return) → NeverReturns k → NeverReturns (pending_step env k)
  unfolding pending_step
  pending_step_never k h t tr name named no_window =
      let (t', good, same, still_none) = with_times_no_window t (env.now tr) no_window in
      let (e, failed, exists) = create_guardian_pod_exists t' (read_clock ∷ tr) in
      let made = (create_guardian_pod env t' (read_clock ∷ tr)).1 in
      let never = h t' made name (same ∙ named) still_none in ground arith

  ready_step_never : (k : Ticket → M Return) → NeverReturns k → NeverReturns (ready_step env k)
  unfolding ready_step
  ready_step_never k h t tr name named no_window = elim (Option-cases (parse_key name)) [
    | inl bad ↦ ground (arith, h t tr name named no_window)
    | inr (key, parsed) ↦
        ground (arith, stale.missing tr key, h t (get_pod key ∷ tr) name named no_window)
  ]

  mutual
    unfolding handle_pending

    handle_pending_never : (fuel : ℕ) → NeverReturns (handle_pending env fuel)
    handle_pending_never zero t tr name named no_window = refl
    handle_pending_never (suc fuel) t tr name named no_window =
        pending_step_never (handle_ready env fuel) (handle_ready_never fuel) t tr name named
          no_window

    handle_ready_never : (fuel : ℕ) → NeverReturns (handle_ready env fuel)
    handle_ready_never zero t tr name named no_window = refl
    handle_ready_never (suc fuel) t tr name named no_window =
        ready_step_never (handle_pending env fuel) (handle_pending_never fuel) t tr name named
          no_window

-- While the server answers that the guardian pod exists when it is created and that it is missing
-- when it is read, as a read through a cache that lags does, handlePendingTicket and
-- handleReadyTicket call each other without an end, at a ticket with a reference to a pod and no
-- window: no number of calls is enough.
pub handle_pending_diverges :
    (env : Cluster) (fuel : ℕ) (t : Ticket) (tr : Trace) {name : Text}
    → IsStale env
    → t.status.guardian_pod ≡ some name
    → t.spec.window ≡ none
    → (handle_pending env fuel t tr).0 ≡ none
handle_pending_diverges env fuel t tr {name} stale = handle_pending_never env stale fuel t tr name
