-- ===== src/Lifecycle/Tests.antt =====
-- The theorems on histories at concrete inputs.
use korder.Prelude.{◌≡◌, refl, true, some, [], ◌∷◌}
use korder.Prelude.Text.{codes, text_eq, lookup}
use korder.Prelude.Strings.{trim_space, cut_prefix}
use korder.Api.Meta.{Pod, key_of}
use korder.Api.Ticket.{Ticket, TicketPhase}
use korder.Client.{Cluster, ok}
use korder.Client.Sample.{sample_server, ticket_in, bare_pod}
use korder.PodWebhook.Find.{find_by_request, get_specific_ticket}
use korder.PodWebhook.Choose.{find_available, select_best, select_from, score}
use korder.PodWebhook.Defaulter.{default, bind_pod, claimed_by, is_guardian}
use korder.TicketController.Reconcile.{reconcile}
use korder.Lifecycle.Machine.{Moves, is_settled}
use korder.Lifecycle.History.{stored, reconciles, binds, History, start, extend, IsFresh}
use korder.Lifecycle.Refines.{view, History-Moves, History-keeps_holder}

abbrev ready_ticket : Ticket
ready_ticket =
    let t = ticket_in TicketPhase.ready (codes "t1") in
    record t { status = record t.status { node_name = some (codes "n1") } }

abbrev showing : Ticket → Cluster
showing t = record sample_server { ticket_at = λ tr k. ok t }

abbrev asking_pod : Pod
asking_pod =
    let p = bare_pod (codes "api") in
    record p {
      meta = record p.meta {
        annotations = (codes "korder.dev/ticket-request", codes "name:t1") ∷ [];
      };
    }

fresh : IsFresh (showing ready_ticket) asking_pod ready_ticket
unfolding find_available find_by_request get_specific_ticket select_best select_from cut_prefix
    trim_space lookup text_eq score
fresh u found same = cc

-- The ticket after the pod has been bound to it.
abbrev bound_ticket : Ticket
bound_ticket =
    stored (showing ready_ticket) ready_ticket (default (showing ready_ticket) asking_pod []).1

abbrev retired_ticket : Ticket
retired_ticket =
    stored (showing bound_ticket) bound_ticket
      (reconcile (showing bound_ticket) 3 (key_of bound_ticket.meta) []).1

binding : History ready_ticket bound_ticket
binding = extend start (binds (showing ready_ticket) asking_pod fresh)

History-Moves_example : Moves (view ready_ticket) (view retired_ticket)
History-Moves_example = History-Moves (extend binding (reconciles (showing bound_ticket) 3 refl))

abbrev claimed_ticket : Ticket
claimed_ticket =
    let t = ticket_in TicketPhase.claimed (codes "t1") in
    record t { status = record t.status { claimed_pod = some (codes "prod/api") } }

abbrev after_claim : Ticket
after_claim =
    stored (showing claimed_ticket) claimed_ticket
      (reconcile (showing claimed_ticket) 3 (key_of claimed_ticket.meta) []).1

History-keeps_holder_example :
    (is_settled after_claim.status.phase ≡ true)
    × (after_claim.status.claimed_pod ≡ claimed_ticket.status.claimed_pod)
History-keeps_holder_example =
    History-keeps_holder (extend start (reconciles (showing claimed_ticket) 3 refl)) refl

-- The binding is a claim by the pod.
bound_ticket_claimed :
    (bound_ticket.status.phase ≡ TicketPhase.claimed)
    × (bound_ticket.status.claimed_pod ≡ some (codes "prod/api"))
unfolding stored default bind_pod claimed_by is_guardian find_available find_by_request
    get_specific_ticket select_best select_from cut_prefix trim_space lookup text_eq score
bound_ticket_claimed = (refl, refl)
