-- ===== src/TicketController/Activate.antt =====
-- internal/controller/ticket_controller.go: handlePendingTicket and handleReadyTicket.
use korder.Prelude.{
  ℕ, zero, suc, Bool, true, false, not, ◌&&◌, Option, none, some, ◌++◌, if◌then◌else◌, is_empty,
  get_or,
}
use korder.Prelude.Int.{◌+ℤ◌}
use korder.Prelude.Text.{Text, codes, text_eq}
use korder.Api.Meta.{Pod, PodPhase, Time}
use korder.Api.Ticket.{Ticket, TicketPhase}
use korder.Client.{
  Cluster, error_text, is_not_found, is_already_exists, Reply, ok, err, M, stuck, ◌>>=◌, now,
  find_pod, done, Return, return_ok, return_err,
}
use korder.TicketController.Write.{join_key, parse_key, update_ticket_status, poll}
use korder.TicketController.Guardian.{create_guardian_pod}

-- The activation time is set once.
unfoldable pub with_activation : Ticket → Time → Ticket
with_activation t at_time = elim t.status.activation_time [
  | some a ↦ t
  | none ↦ record t { status = record t.status { activation_time = some at_time } }
]

-- The expiration time is set once, from the window's duration.
unfoldable pub with_expiration : Cluster → Ticket → Time → Reply Ticket
with_expiration env t start = elim t.status.expiration_time [
  | some e ↦ ok t
  | none ↦ elim t.spec.window [
    | none ↦ ok t
    | some w ↦ if is_empty w.duration then ok t else elim (env.parse_duration w.duration) [
      | err e ↦ err e
      | ok d ↦ ok (record t { status = record t.status { expiration_time = some (start +ℤ d) } })
    ]
  ]
]

-- The two times that handlePendingTicket sets before it creates the pod.
unfoldable pub with_times : Cluster → Ticket → Time → Reply Ticket
unfolding with_expiration
with_times env t at_time =
    let t' = with_activation t at_time in
    with_expiration env t' (get_or t'.status.activation_time at_time)

-- The status that handlePendingTicket gives a ticket whose pod it has created.
unfoldable pub activated : Ticket → Pod → Ticket
activated t pod = record t {
  status = record t.status {
    phase = TicketPhase.ready;
    guardian_pod = some (join_key pod.meta.namespace pod.meta.name);
    node_name = some pod.spec.node_name;
  };
}

is_running : PodPhase → Bool
is_running PodPhase.running = true
is_running _ = false

differs : Option Text → Text → Bool
differs none node = true
differs (some old) node = not (text_eq old node)

-- handleReadyTicket takes the node over from a pod that has been scheduled.
unfoldable pub with_node : Ticket → Pod → Ticket
unfolding differs
with_node t pod =
    if not (is_empty pod.spec.node_name) && differs t.status.node_name pod.spec.node_name
    then record t { status = record t.status { node_name = some pod.spec.node_name } }
    else t

-- handlePendingTicket, given what it does where the guardian pod exists already: handleReadyTicket.
unfoldable pub pending_step : Cluster → (Ticket → M Return) → Ticket → M Return
pending_step env ready t = do
  at_time ← now env
  elim (with_times env t at_time) [
    | err e ↦
        update_ticket_status env (with_activation t at_time) TicketPhase.pending (codes "Failed")
          (codes "Invalid window duration: " ++ error_text e)
    | ok t' ↦ do
      made ← create_guardian_pod env t'
      elim made [
        | ok pod ↦
            update_ticket_status env (activated t' pod) TicketPhase.ready (codes "Activated")
              (codes "Guardian pod created and ticket ready")
        | err e ↦
            if is_already_exists e
            then ready t'
            else update_ticket_status env t' TicketPhase.pending (codes "Failed")
                (codes "Failed to create guardian pod: " ++ error_text e)
      ]
  ]

-- handleReadyTicket, given what it does where the guardian pod is missing: handlePendingTicket.
unfoldable pub ready_step : Cluster → (Ticket → M Return) → Ticket → M Return
unfolding is_running
ready_step env pending t = elim t.status.guardian_pod [
  | none ↦ return_ok poll
  | some name ↦ elim (parse_key name) [
    | none ↦ pending t
    | some k ↦ do
      found ← find_pod env k
      elim found [
        | err e ↦ if is_not_found e then pending t else return_err done e
        | ok pod ↦
            if is_running pod.phase
            then update_ticket_status env (with_node t pod) TicketPhase.ready (codes "Ready")
                (codes "Guardian pod is running and ticket is ready")
            else return_ok poll
      ]
  ]
]

-- The two handlers call each other; each call uses one unit of fuel.
unfoldable mutual
  pub handle_pending : Cluster → ℕ → Ticket → M Return
  handle_pending env zero t = stuck
  handle_pending env (suc fuel) t = pending_step env (handle_ready env fuel) t

  pub handle_ready : Cluster → ℕ → Ticket → M Return
  handle_ready env zero t = stuck
  handle_ready env (suc fuel) t = ready_step env (handle_pending env fuel) t
