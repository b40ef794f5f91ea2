-- ===== src/TicketController/Retire.antt =====
-- internal/controller/ticket_controller.go: handleClaimedTicket, handleExpiredTicket and
-- handleExpiration.
use korder.Prelude.{Bool, true, false, Option, none, some, if◌then◌else◌}
use korder.Prelude.Int.{ℤ, ◌+ℤ◌, ◌-ℤ◌, ltb_ℤ, scale}
use korder.Prelude.Text.{codes}
use korder.Api.Ticket.{Ticket, TicketPhase, TicketLifecycle, CleanupPolicy, is_expired}
use korder.Client.{
  Cluster, is_not_found, Call, M, ◌>>=◌, write, now, done, after, Return, return_ok, return_err,
}
use korder.TicketController.Write.{second_ns, update_ticket_status}
use korder.TicketController.Guardian.{delete_guardian_pod}

-- handleClaimedTicket
unfoldable pub handle_claimed : Cluster → Ticket → M Return
handle_claimed env t = do
  failure ← delete_guardian_pod env t
  elim failure [
    | some e ↦ return_err done e
    | none ↦
        update_ticket_status env (record t { status = record t.status { guardian_pod = none } })
          TicketPhase.claimed (codes "Claimed") (codes "Ticket claimed and guardian pod deleted")
  ]

-- r.Delete of the ticket itself, for which a missing ticket is no error.
unfoldable pub delete_ticket_now : Cluster → Ticket → M Return
delete_ticket_now env t = do
  failure ← write env (Call.delete_ticket t)
  elim failure [
    | none ↦ return_ok done
    | some e ↦ if is_not_found e then return_ok done else return_err done e
  ]

-- The three readings of the clock in the branch with a TTL.
unfoldable pub delete_after : Cluster → Ticket → ℤ → M Return
delete_after env t ttl = do
  start ← now env
  let delete_time = start +ℤ scale second_ns ttl
  checked ← now env
  if ltb_ℤ delete_time checked
      then delete_ticket_now env t
      else (now env >>= λ later. return_ok (after (delete_time -ℤ later)))

is_delete : CleanupPolicy → Bool
is_delete CleanupPolicy.delete = true
is_delete _ = false

unfoldable pub retain_expired : Cluster → Ticket → M Return
retain_expired env t =
    update_ticket_status env t TicketPhase.expired (codes "Expired")
      (codes "Ticket expired and guardian pod deleted")

-- The cleanup policy of handleExpiredTicket.
unfoldable pub clean_up : Cluster → Ticket → Option TicketLifecycle → M Return
unfolding is_delete
clean_up env t none = retain_expired env t
clean_up env t (some l) = elim (is_delete l.cleanup_policy) [
  | false ↦ retain_expired env t
  | true ↦ elim l.ttl_seconds_after_finished [
    | none ↦ delete_ticket_now env t
    | some ttl ↦ delete_after env t ttl
  ]
]

-- handleExpiredTicket
unfoldable pub handle_expired : Cluster → Ticket → M Return
handle_expired env t = do
  failure ← delete_guardian_pod env t
  elim failure [ some e ↦ return_err done e | none ↦ clean_up env t t.spec.lifecycle ]

-- handleExpiration
unfoldable pub handle_expiration : Cluster → Ticket → M Return
handle_expiration env t =
    if is_expired t.status.phase
    then handle_expired env t
    else update_ticket_status env
        (record t { status = record t.status { phase = TicketPhase.expired } }) TicketPhase.expired
        (codes "Expired") (codes "Ticket duration exceeded")
