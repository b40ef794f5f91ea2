-- ===== src/TicketController/Reconcile.antt =====
-- internal/controller/ticket_controller.go: Reconcile, with isTicketExpired.
use korder.Prelude.{ℕ, Bool, false, none, some, if◌then◌else◌}
use korder.Prelude.Int.{ltb_ℤ}
use korder.Api.Meta.{Key}
use korder.Api.Ticket.{Ticket, TicketPhase}
use korder.Client.{
  Cluster, is_not_found, ok, err, Call, M, pure, ◌>>=◌, write, now, find_ticket, done, again,
  Return, return_ok, return_err,
}
use korder.TicketController.Write.{ticket_finalizer, finish}
use korder.TicketController.Guardian.{handle_deletion}
use korder.TicketController.Activate.{handle_pending, handle_ready}
use korder.TicketController.Retire.{handle_claimed, handle_expired, handle_expiration}

-- isTicketExpired, which reads the clock only if there is an expiration time.
unfoldable pub is_ticket_expired : Cluster → Ticket → M Bool
is_ticket_expired env t = elim t.status.expiration_time [
  | none ↦ pure false
  | some e ↦ do at_time ← now env; pure (ltb_ℤ e at_time)
]

-- The switch of Reconcile over the phase; the last clause is its default.
unfoldable pub by_phase : Cluster → ℕ → TicketPhase → Ticket → M Return
by_phase env fuel TicketPhase.new t = handle_pending env fuel t
by_phase env fuel TicketPhase.pending t = handle_pending env fuel t
by_phase env fuel TicketPhase.ready t = handle_ready env fuel t
by_phase env fuel TicketPhase.claimed t = handle_claimed env t
by_phase env fuel TicketPhase.expired t = handle_expired env t
by_phase env fuel (TicketPhase.other p) t = return_ok done

-- Reconcile behind the fetch of the ticket.
unfoldable pub reconcile_found : Cluster → ℕ → Ticket → M Return
reconcile_found env fuel t = elim t.meta.deletion_timestamp [
  | some d ↦ handle_deletion env t
  | none ↦
      if env.contains_finalizer t.meta ticket_finalizer
      then (is_ticket_expired env t >>= λ late.
          if late then handle_expiration env t else by_phase env fuel t.status.phase t)
      else (write env
            (Call.update_ticket (record t { meta = env.add_finalizer t.meta ticket_finalizer }))
          >>= finish again done)
]

-- Reconcile
unfoldable pub reconcile : Cluster → ℕ → Key → M Return
reconcile env fuel key = do
  found ← find_ticket env key
  elim found [
    | err e ↦ if is_not_found e then return_ok done else return_err done e
    | ok t ↦ reconcile_found env fuel t
  ]
