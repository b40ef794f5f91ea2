-- ===== src/TicketController/Cleanup.antt =====
-- What is deleted, and when: the guardian pod before the finalizer goes, and the expired ticket.
use korder.Prelude.{◌≡◌, Bool, true, false, Option, none, some, ◌∷◌, arith, anyb}
use korder.Prelude.Int.{ℤ, ◌+ℤ◌, ◌≤ℤ◌, scale}
use korder.Prelude.Text.{Text, codes}
use korder.Api.Meta.{Key}
use korder.Api.Ticket.{Ticket, TicketPhase, TicketLifecycle}
use korder.Client.{
  Cluster, Error, is_not_found, Call, Trace, read_clock, delete_pod, delete_ticket, update_ticket,
  done, again, calls,
}
use korder.TicketController.Write.{ticket_finalizer, second_ns, parse_key, update_ticket_status}
use korder.TicketController.Guardian.{delete_guardian_pod, handle_deletion}
use korder.TicketController.Retire.{handle_expired, delete_after, clean_up, retain_expired}

-- A write succeeded, or found that its object is missing.
abbrev pub write_done : Option Error → Bool
write_done none = true
write_done (some e) = is_not_found e

abbrev pub deletes_ticket : Call → Bool
deletes_ticket (delete_ticket t) = true
deletes_ticket _ = false

-- Two readings of the clock in a row are no further apart than the number of seconds.
abbrev pub IsQuick : Cluster → ℤ → Type 0
IsQuick env ttl = (tr : Trace) → env.now (read_clock ∷ tr) ≤ℤ env.now tr +ℤ scale second_ns ttl

delete_after_keeps :
    (env : Cluster) (t : Ticket) (ttl : ℤ) (tr : Trace)
    → IsQuick env ttl
    → anyb deletes_ticket (delete_after env t ttl tr).1 ≡ anyb deletes_ticket tr
unfolding delete_after
delete_after_keeps env t ttl tr quick = ground (arith, quick tr)

-- While the guardian pod of a deleted ticket cannot be deleted, for another reason than that it is
-- missing, the finalizer stays: the only call is the refused deletion, the error is returned and
-- the ticket is queued again.
pub handle_deletion-keeps_finalizer :
    (env : Cluster) (t : Ticket) (tr : Trace) {name : Text} {k : Key} {e : Error}
    → t.status.guardian_pod ≡ some name
    → parse_key name ≡ some k
    → env.write_error tr (delete_pod k) ≡ some e
    → is_not_found e ≡ false
    → handle_deletion env t tr
      ≡ (some (record { outcome = again; error = some e }), delete_pod k ∷ tr)
unfolding handle_deletion delete_guardian_pod
handle_deletion-keeps_finalizer env t tr named parsed refused present = ground arith

-- Once the guardian pod is deleted, or was missing already, the finalizer is removed, and the
-- ticket is not queued again if that write succeeds.
pub handle_deletion-removes_finalizer :
    (env : Cluster) (t : Ticket) (tr : Trace) {name : Text} {k : Key}
    → t.status.guardian_pod ≡ some name
    → parse_key name ≡ some k
    → write_done (env.write_error tr (delete_pod k)) ≡ true
    → let w = update_ticket (record t { meta = env.remove_finalizer t.meta ticket_finalizer }) in
      (calls (handle_deletion env t tr) ≡ w ∷ delete_pod k ∷ tr)
      × (write_done (env.write_error (delete_pod k ∷ tr) w) ≡ true
          → (handle_deletion env t tr).0 ≡ some (record { outcome = done; error = none }))
unfolding handle_deletion delete_guardian_pod
handle_deletion-removes_finalizer env t tr named parsed gone = (ground arith, ground arith)

-- What the parts of handle_expired add to the calls holds no deletion of a ticket.
update_ticket_status_keeps :
    (env : Cluster) (t : Ticket) (phase : TicketPhase) (reason message : Text) (tr : Trace)
    → anyb deletes_ticket (update_ticket_status env t phase reason message tr).1
      ≡ anyb deletes_ticket tr
unfolding update_ticket_status
update_ticket_status_keeps env t phase reason message tr = ground arith

delete_guardian_pod_keeps :
    (env : Cluster) (t : Ticket) (tr : Trace)
    → anyb deletes_ticket (delete_guardian_pod env t tr).1 ≡ anyb deletes_ticket tr
unfolding delete_guardian_pod
delete_guardian_pod_keeps env t tr = ground arith

clean_up_keeps :
    (env : Cluster) (t : Ticket) (l : TicketLifecycle) (ttl : ℤ) (tr : Trace)
    → l.ttl_seconds_after_finished ≡ some ttl
    → IsQuick env ttl
    → anyb deletes_ticket (clean_up env t (some l) tr).1 ≡ anyb deletes_ticket tr
unfolding clean_up retain_expired
clean_up_keeps env t l ttl tr has_ttl quick = ground (
  arith,
  delete_after_keeps env t ttl tr quick,
  update_ticket_status_keeps env t TicketPhase.expired (codes "Expired")
      (codes "Ticket expired and guardian pod deleted") tr,
)

-- An expired ticket with a TTL, whatever its policy, is never deleted: if no two readings of the
-- clock in a row are further apart than the TTL, then handling it adds no deletion of a ticket, on
-- any branch. The deletion time is computed from the present each time, so it never comes.
pub handle_expired-never_deletes :
    (env : Cluster) (t : Ticket) (tr : Trace) {l : TicketLifecycle} {ttl : ℤ}
    → t.spec.lifecycle ≡ some l
    → l.ttl_seconds_after_finished ≡ some ttl
    → IsQuick env ttl
    → anyb deletes_ticket (calls (handle_expired env t tr)) ≡ anyb deletes_ticket tr
unfolding handle_expired
handle_expired-never_deletes env t tr {l} {ttl} has_lifecycle has_ttl quick =
    let tr' = (delete_guardian_pod env t tr).1 in
    ground (arith, delete_guardian_pod_keeps env t tr, clean_up_keeps env t l ttl tr' has_ttl quick)
