-- ===== src/TicketController/Recreate/Forgets.antt =====
-- A guardian pod that exists and that its ticket does not refer to.
use korder.Prelude.{ℕ, suc, ◌≡◌, true, none, some, ◌∷◌, arith, inl, inr}
use korder.Api.Meta.{ObjectMeta, Pod, Time}
use korder.Api.Ticket.{Ticket}
use korder.Client.{Cluster, ok, Reply-cases, Trace, read_clock, create_pod}
use korder.TicketController.Write.{poll}
use korder.TicketController.Guardian.{guardian_pod_of, create_guardian_pod}
use korder.TicketController.Activate.{
  with_activation, with_expiration, with_times, pending_step, ready_step, handle_pending,
}
use korder.TicketController.Recreate.{says_exists}

module _ (env : Cluster) (t : Ticket) (at_time : Time) where
  guardian_pod_of-with_activation :
      guardian_pod_of env (with_activation t at_time) ≡ guardian_pod_of env t
  unfolding guardian_pod_of with_activation
  guardian_pod_of-with_activation = ground arith

  meta-with_activation : (with_activation t at_time).meta ≡ t.meta
  unfolding with_activation
  meta-with_activation = ground arith

  guardian-with_activation : (with_activation t at_time).status.guardian_pod ≡ t.status.guardian_pod
  unfolding with_activation
  guardian-with_activation = ground arith

  with_times_activation :
      t.spec.window ≡ none → with_times env t at_time ≡ ok (with_activation t at_time)
  unfolding with_times with_activation with_expiration
  with_times_activation h = ground arith

  create_guardian_pod_lem :
      (tr : Trace) (m : ObjectMeta)
      → env.set_controller_reference t.meta (guardian_pod_of env t).meta ≡ ok m
      → let pod : Pod = record (guardian_pod_of env t) { meta = m } in
        create_guardian_pod env (with_activation t at_time) tr
        ≡ (some (env.created_pod tr pod), create_pod pod ∷ tr)
  unfolding create_guardian_pod
  create_guardian_pod_lem tr m owned =
      ground (arith, guardian_pod_of-with_activation, meta-with_activation)

-- A ticket with no reference whose guardian pod exists already, as after a status write that
-- failed, is polled and its status is not written, so it does not become ready: the calls are one
-- reading of the clock and the refused creation. The ticket has no window here.
pub handle_pending-forgets :
    (env : Cluster) (fuel : ℕ) (t : Ticket) (tr : Trace) (m : ObjectMeta)
    → t.status.guardian_pod ≡ none
    → t.spec.window ≡ none
    → env.set_controller_reference t.meta (guardian_pod_of env t).meta ≡ ok m
    → says_exists (env.created_pod (read_clock ∷ tr) (record (guardian_pod_of env t) { meta = m }))
      ≡ true
    → handle_pending env (suc (suc fuel)) t tr ≡ (
      some (record { outcome = poll; error = none }),
      create_pod (record (guardian_pod_of env t) { meta = m }) ∷ read_clock ∷ tr,
    )
unfolding handle_pending pending_step ready_step
handle_pending-forgets env fuel t tr m no_pod no_window owned exists =
    let start = env.now tr in
    let made = create_guardian_pod_lem env t start (read_clock ∷ tr) m owned in
    elim (Reply-cases
      (env.created_pod (read_clock ∷ tr) (record (guardian_pod_of env t) { meta = m }))) [
        | inl (pod, h) ↦ absurd (ground arith)
        | inr (e, h) ↦ ground (
          arith,
          with_times_activation env t start no_window,
          made,
          guardian-with_activation env t start,
        )
      ]
