-- ===== src/Admitted/Tests.antt =====
-- The theorems on admitted orders at concrete inputs.
use korder.Prelude.{◌≡◌, refl, true, none, some, if◌then◌else◌, List, [], ◌∷◌, arith, is_some}
use korder.Prelude.Int.{pos}
use korder.Prelude.Text.{codes, text_eq}
use korder.Api.Meta.{Key}
use korder.Api.Ticket.{Ticket, TicketPhase, WindowSpec}
use korder.Api.Order.{Order, RefreshPolicy}
use korder.Client.{Cluster, ok, err, not_found}
use korder.Client.Sample.{sample_server, order_with, ticket_in}
use korder.TicketWebhook.Spec.{Verdict, accept}
use korder.OrderController.Reconcile.{reconcile}
use korder.OrderController.Returns.{ListsAreShort}
use korder.OrderController.Tickets.{filter_active, ticket_of}
use korder.OrderWebhook.Validator.{validate_create, validate_update}
use korder.OrderWebhook.Spec.{validate_spec}
use korder.OrderWebhook.Quotas.{validate_against_quotas}
use korder.Admitted.{validate_create-reconcile}
use korder.Admitted.Refused.{validate_update-tickets_refused}
use korder.TicketWebhook.Defaulter.{default}
use korder.TicketWebhook.Validator as of_ticket
use korder.Usage.Measure.{IsMeasured}
use korder.Usage.{check_projected}
use korder.Usage.Sample.{busy_server, busy_server-IsMeasured}

abbrev three : Order
three = order_with RefreshPolicy.always (some (pos 3))

abbrev key : Key
key = record { namespace = codes "prod"; name = codes "web" }

abbrev two_tickets : List Ticket
two_tickets =
    ticket_in TicketPhase.ready (codes "t1") ∷ ticket_in TicketPhase.pending (codes "t2") ∷ []

-- A server that has the order, with two tickets.
abbrev holding : Order → Cluster
holding order = record sample_server {
  order_at = λ tr k. ok order;
  tickets_at = λ tr ns ls. ok two_tickets;
}

holding-ListsAreShort : (order : Order) → ListsAreShort (holding order)
unfolding filter_active
holding-ListsAreShort order tr ns ls ts listed =
    let same : two_tickets ≡ ts = cc in rw (← same) (omega arith)

validate_create-reconcile_example : is_some (reconcile (holding three) key []).0 ≡ true
unfolding validate_create validate_against_quotas check_projected validate_spec
validate_create-reconcile_example =
    validate_create-reconcile (busy_server [] []) (holding three) three key [] [] (accept []) refl
      refl (holding-ListsAreShort three) refl

-- A server that reads one text as a duration.
abbrev strict_server : Cluster
strict_server = record (busy_server [] []) {
  parse_duration = λ s. if text_eq s (codes "2h") then ok (pos 7200) else err (not_found []);
}

strict_server-IsMeasured : IsMeasured strict_server
strict_server-IsMeasured =
    let m = busy_server-IsMeasured [] [] in
    record {
      unit = m.unit;
      measure = m.measure;
      exceeds_lem = m.exceeds_lem;
      is_zero_lem = m.is_zero_lem;
      is_positive_lem = m.is_positive_lem;
      add_quantity_lem = m.add_quantity_lem;
      sub_quantity_lem = m.sub_quantity_lem;
      zero_quantity_lem = m.zero_quantity_lem;
      new_quantity_lem = m.new_quantity_lem;
    }

abbrev long_window : WindowSpec
long_window = record { start_time = none; time_zone = none; duration = codes "two hours" }

abbrev with_window : Order
with_window =
    let template = three.spec.template in
    record three {
      spec = record three.spec {
        template = record template { spec = record template.spec { window = some long_window } };
      };
    }

validate_update-tickets_refused_example :
    (validate_update strict_server three with_window [] ≡ (some (accept []), []))
    × (is_some (validate_spec strict_server with_window).error ≡ true)
    × ((t : Ticket) × (v : Verdict) × ((default strict_server
            (record (ticket_of with_window (pos 0)) { meta = three.meta })
            []).0
          ≡ some t)
        × ((of_ticket.validate_create strict_server t []).0 ≡ some v)
        × (is_some v.error ≡ true))
unfolding text_eq
validate_update-tickets_refused_example =
    validate_update-tickets_refused strict_server strict_server-IsMeasured three with_window
      long_window (pos 0) three.meta [] [] [] (omega arith) refl refl (refl, not_found [], refl)
