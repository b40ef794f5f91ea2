-- ===== src/PodWebhook/Tests.antt =====
-- Runs of the webhook, and the theorems at concrete inputs.
use korder.Prelude.{◌≡◌, refl, none, some, [], ◌∷◌, arith}
use korder.Prelude.Int.{pos}
use korder.Prelude.Text.{Text, codes, text_eq, lookup}
use korder.Prelude.Strings.{trim_space, cut_prefix, is_space}
use korder.Api.Meta.{Pod}
use korder.Api.Ticket.{Ticket, TicketPhase}
use korder.Client.{Cluster, Call, Error, ok, get_ticket, Trace, calls, find_tickets}
use korder.Client.Sample.{sample_server, ticket_in, bare_pod}
use korder.PodWebhook.Find.{find_by_request, find_by_selector, get_specific_ticket}
use korder.PodWebhook.Choose.{find_available, select_best, select_from, score}
use korder.PodWebhook.Defaulter.{is_guardian, bound, default, bind_pod}
use korder.PodWebhook.Validator.{validate_create}
use korder.PodWebhook.Select.{IsChoice, select_best-IsChoice}
use korder.PodWebhook.Selector.{find_by_selector-print_pairs, print_pairs, insert_all}
use korder.PodWebhook.Bind.{default-binds, default-never_fails, IsAsked, AfterSearch}
use korder.PodWebhook.Validate.{validate_create-rejects_bound}

abbrev ready_ticket : Text → Ticket
ready_ticket name =
    let t = ticket_in TicketPhase.ready name in
    record t { status = record t.status { node_name = some (codes "n1") } }

abbrev asking_pod : Pod
asking_pod =
    let p = bare_pod (codes "api") in
    record p {
      meta = record p.meta {
        annotations = (codes "korder.dev/ticket-request", codes "name:t1") ∷ [];
      };
    }

-- A server that shows the ticket as it was last written.
abbrev last_written : Trace → Ticket
last_written [] = ready_ticket (codes "t1")
last_written (Call.update_ticket_status t ∷ tr) = t
last_written (c ∷ tr) = last_written tr

abbrev server : Cluster
server = record sample_server { ticket_at = λ tr k. ok (last_written tr) }

select_best-IsChoice_example :
    IsChoice asking_pod
      (ticket_in TicketPhase.pending (codes "a") ∷ ready_ticket (codes "b") ∷ [])
      (select_best asking_pod
        (ticket_in TicketPhase.pending (codes "a") ∷ ready_ticket (codes "b") ∷ []))
select_best-IsChoice_example =
    select_best-IsChoice asking_pod
      (ticket_in TicketPhase.pending (codes "a") ∷ ready_ticket (codes "b") ∷ [])

find_by_selector-print_pairs_example :
    find_by_selector server asking_pod
      (print_pairs (codes "app", codes "web") ((codes "env", codes "dev") ∷ []))
      []
    ≡ find_tickets server
        (codes "prod")
        (insert_all ((codes "app", codes "web") ∷ (codes "env", codes "dev") ∷ []) [])
        []
unfolding is_space
find_by_selector-print_pairs_example =
    find_by_selector-print_pairs server asking_pod (codes "app", codes "web")
      ((codes "env", codes "dev") ∷ []) []
      (
        ((λ e. cc), omega arith, omega arith, (refl, (refl, (refl, tt)))),
        ((λ e. cc), omega arith, omega arith, (refl, (refl, (refl, tt)))),
      )
      (
        (
          ((λ e. cc), omega arith, omega arith, (refl, (refl, (refl, tt)))),
          ((λ e. cc), omega arith, omega arith, (refl, (refl, (refl, tt)))),
        ),
        tt,
      )

abbrev found_t1 : Trace
found_t1 = get_ticket (record { namespace = codes "prod"; name = codes "t1" }) ∷ []

default-binds_example :
    (p : Pod) × ((default server asking_pod []).0 ≡ some (p, none))
    × AfterSearch server asking_pod found_t1 p
        (calls (default server asking_pod []))
        (ok (some (ready_ticket (codes "t1"))))
unfolding is_guardian find_available find_by_request get_specific_ticket select_best select_from
    cut_prefix trim_space lookup text_eq score
default-binds_example =
    default-binds server asking_pod [] found_t1 (ok (some (ready_ticket (codes "t1")))) refl refl
      refl

default-never_fails_example :
    (p : Pod) × ((default server asking_pod []).0 ≡ some (p, none)) × IsAsked server asking_pod [] p
default-never_fails_example = default-never_fails server asking_pod []

abbrev claiming_pod : Pod
claiming_pod =
    let p = asking_pod in
    record p {
      meta = record p.meta {
        annotations =
            (codes "korder.dev/ticket-request", codes "t1")
            ∷ (codes "korder.dev/ticket-claimed", codes "t1")
            ∷ [];
      };
    }

validate_create-rejects_bound_example :
    ((default server asking_pod []).0
      ≡ some (bound asking_pod (ready_ticket (codes "t1")) (codes "n1"), none))
    × (e : Error) × ((validate_create server
          (bound asking_pod (ready_ticket (codes "t1")) (codes "n1"))
          (calls (default server asking_pod []))).0
        ≡ some (some e))
unfolding is_guardian default find_available find_by_request get_specific_ticket select_best
    select_from cut_prefix trim_space lookup text_eq is_space score bind_pod
validate_create-rejects_bound_example =
    validate_create-rejects_bound server asking_pod (codes "t1") (codes "n1") []
      (ready_ticket (codes "t1")) (refl, (refl, tt)) refl refl refl refl refl refl refl (pos 100)
      refl
