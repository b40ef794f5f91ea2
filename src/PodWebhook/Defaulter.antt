-- ===== src/PodWebhook/Defaulter.antt =====
-- internal/webhook/v1/pod_webhook.go: PodCustomDefaulter, which binds a pod to a ticket.
use korder.Prelude.{Bool, Option, none, some, [], ◌∷◌, ◌++◌, if◌then◌else◌}
use korder.Prelude.Text.{Text, codes, text_eq, insert}
use korder.Api.Meta.{Pod, Time}
use korder.Api.Ticket.{Ticket, TicketPhase}
use korder.Client.{
  Cluster, Error, other, error_text, ok, err, Call, M, pure, stuck, ◌>>=◌, write, now,
}
use korder.PodWebhook.Find.{ticket_request, ticket_claimed, ticket_node, at_key}
use korder.PodWebhook.Choose.{find_available}

-- isGuardianPod
unfoldable pub is_guardian : Pod → Bool
is_guardian pod = text_eq (at_key (codes "korder.dev/guardian") pod.meta.labels) (codes "true")

-- The pod that bindPodToTicket makes of a pod.
unfoldable pub bound : Pod → Ticket → Text → Pod
bound pod t node = record pod {
  spec = record pod.spec { node_name = node };
  meta = record pod.meta {
    annotations = insert ticket_claimed t.meta.name (insert ticket_node node pod.meta.annotations);
  };
}

-- The ticket that bindPodToTicket writes.
unfoldable pub claimed_by : Pod → Ticket → Time → Ticket
claimed_by pod t at_time = record t {
  status = record t.status {
    phase = TicketPhase.claimed;
    claimed_time = some at_time;
    claimed_pod = some (pod.meta.namespace ++ b'/' ∷ pod.meta.name);
  };
}

abbrev wrap_error : Option Error → Option Error
wrap_error none = none
wrap_error (some e) = some (other (codes "failed to update ticket status: " ++ error_text e))

-- bindPodToTicket; a ticket with no node is a nil pointer.
unfoldable pub bind_pod : Cluster → Pod → Ticket → M (Pod × Option Error)
bind_pod env pod t = elim t.status.node_name [
  | none ↦ stuck
  | some node ↦ do
    at_time ← now env
    failure ← write env (Call.update_ticket_status (claimed_by pod t at_time))
    pure (bound pod t node, wrap_error failure)
]

-- PodCustomDefaulter.Default and its findAvailableTicket: the pod, and the error that the request
-- fails with.
unfoldable pub default : Cluster → Pod → M (Pod × Option Error)
default env pod =
    if is_guardian pod
    then pure (pod, none)
    else elim (at_key ticket_request pod.meta.annotations) [
      | [] ↦ pure (pod, none)
      | c ∷ request ↦ do
        found ← find_available env pod (c ∷ request)
        elim found [
          | err e ↦ pure (pod, none)
          | ok none ↦ pure (pod, none)
          | ok (some t) ↦ (bind_pod env pod t >>= λ r. pure (r.0, none))
        ]
    ]
