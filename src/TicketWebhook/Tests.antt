-- ===== src/TicketWebhook/Tests.antt =====
-- The theorems on the ticket webhook at concrete inputs.
use korder.Prelude.{◌≡◌, refl, not, Option, none, some, [], ◌∷◌, arith, is_some, allb}
use korder.Prelude.Int.{pos}
use korder.Prelude.Text.{Text, codes}
use korder.Api.Ticket.{Ticket, TicketPhase}
use korder.Api.Quota.{Quota, QuotaScopeType}
use korder.Client.{Cluster, Error, ok, list_quotas}
use korder.Client.Sample.{sample_server, ticket_in, named_meta}
use korder.TicketWebhook.Defaulter.{default}
use korder.TicketWebhook.Spec.{validate_spec, Verdict}
use korder.TicketWebhook.Quotas.{validate_against_quotas}
use korder.TicketWebhook.Admission.{admits, validate_against_quotas_lem, default_valid}

abbrev bare_ticket : Ticket
bare_ticket = ticket_in TicketPhase.new (codes "t1")

abbrev one_ticket : Quota
one_ticket = record {
  meta = named_meta (codes "q");
  spec = record {
    scope = record {
      kind = QuotaScopeType.namespace_list;
      namespace_selector = none;
      namespaces = codes "prod" ∷ [];
      object_selector = none;
    };
    hard = some ((codes "tickets", codes "1") ∷ []);
    time_windows = [];
    allocation = [];
  };
  status = record {
    hard = none;
    used = none;
    active_time_window = none;
    observed_generation = none;
    conditions = [];
  };
}

abbrev quota_server : Cluster
quota_server = record sample_server { quotas_at = λ tr. ok (one_ticket ∷ []) }

validate_against_quotas_lem_example :
    (failure : Option Error) × (validate_against_quotas quota_server
        (codes "prod")
        ((codes "tickets", codes "1") ∷ [])
        []
      ≡ (some failure, list_quotas ∷ []))
    × (is_some failure
        ≡ not (
            allb
              (admits quota_server (codes "prod") ((codes "tickets", codes "1") ∷ []))
              (one_ticket ∷ [])))
validate_against_quotas_lem_example =
    validate_against_quotas_lem quota_server (codes "prod") ((codes "tickets", codes "1") ∷ [])
      (one_ticket ∷ []) [] refl

default_valid_example :
    (t' : Ticket) × (v : Verdict) × ((default sample_server bare_ticket []).0 ≡ some t')
    × ((validate_spec sample_server t' []).0 ≡ some v)
    × (v.error ≡ none)
default_valid_example =
    default_valid sample_server
      (record {
        two_hours = (pos 3600000000000, refl, refl);
        start = λ t printable. (pos 200, refl);
        start_full = λ t. refl;
        processor = refl;
        memory = refl;
      })
      bare_ticket [] [] (omega arith, omega arith) refl refl refl

abbrev on_node : Text → Ticket
on_node node = record bare_ticket { spec = record bare_ticket.spec { node_name = some node } }
