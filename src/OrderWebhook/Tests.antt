-- ===== src/OrderWebhook/Tests.antt =====
-- The theorems on the order webhook at concrete inputs.
use korder.Prelude.{
  ◌≡◌, refl, true, arith, ◌++◌, not, ◌&&◌, none, some, List, [], ◌∷◌, is_some, get_or, length, allb,
}
use korder.Prelude.Int.{pos, scale, ◌+ℤ◌, ◌-ℤ◌, ◌≤ℤ◌}
use korder.Prelude.Text.{Text, codes, text_eq, lookup, insert}
use korder.Api.Meta.{ResourceList}
use korder.Api.Ticket.{Ticket, TicketPhase}
use korder.Api.Order.{Order, RefreshPolicy}
use korder.Api.Quota.{Quota, QuotaScopeType}
use korder.Client.{Cluster, Trace, ok}
use korder.Client.Sample.{metered, named_meta, order_with, ticket_in}
use korder.TicketWebhook.Spec.{Verdict, accept}
use korder.OrderWebhook.Quotas.{
  deltas, validate_growth, Scoped, resources_in_scope, quota_usage, quota_applies,
  resource_requests, validate_against_quotas, list_both, list_each,
}
use korder.OrderWebhook.Validator.{validate_create, validate_update}
use korder.OrderWebhook.Admission.{validate_create-tickets}
use korder.OrderWebhook.Spec.{validate_spec, validate_immutable}
use korder.OrderWebhook.Burst.{Fits, admits_in_turn, admits_in_turn_lem}
use korder.OrderWebhook.Growth.{validate_update-tickets}
use korder.OrderWebhook.Decision.{validate_create_lem, has_room}
use korder.Usage.Sample.{busy_server, busy_server-IsMeasured, busy_server-unit, busy_server-fits}
use korder.Usage.Measure.{IsMeasured}
use korder.Usage.{check_projected, is_exceeded, project, enter_count}

abbrev three : Order
three = order_with RefreshPolicy.unset (some (pos 3))

abbrev five_tickets : Quota
five_tickets = record {
  meta = named_meta (codes "q");
  spec = record {
    scope = record {
      kind = QuotaScopeType.namespace_list;
      namespace_selector = none;
      namespaces = codes "prod" ∷ [];
      object_selector = none;
    };
    hard = some ((codes "tickets", metered (pos 5)) ∷ []);
    time_windows = [];
    allocation = [];
  };
  status = record {
    hard = none;
    used = none;
    active_time_window = none;
    observed_generation = none;
    conditions = [];
  };
}

-- A server with two tickets in the namespace of the quota.
abbrev two_tickets : List Ticket
two_tickets =
    ticket_in TicketPhase.ready (codes "t1") ∷ ticket_in TicketPhase.pending (codes "t2") ∷ []

abbrev busy : Cluster
busy = busy_server (five_tickets ∷ []) two_tickets

abbrev metered_busy : IsMeasured busy
metered_busy = busy_server-IsMeasured (five_tickets ∷ []) two_tickets

validate_create-tickets_example :
    (at : Trace) × (both : Scoped) × ((resources_in_scope busy five_tickets at).0 ≡ some (ok both))
    × (scale metered_busy.unit (pos (length both.1))
          +ℤ scale metered_busy.unit (get_or three.spec.replicas (pos 1))
        ≤ℤ metered_busy.measure (metered (pos 5)))
unfolding validate_create validate_against_quotas check_projected quota_applies quota_usage
    resources_in_scope list_each list_both enter_count is_exceeded project lookup insert text_eq
    resource_requests ◌+ℤ◌
validate_create-tickets_example =
    validate_create-tickets busy metered_busy three (five_tickets ∷ []) 0 five_tickets
      (metered (pos 5)) [] (accept []) refl refl refl refl refl refl

-- The tickets that the server lists for namespaces, beside those that it has listed.
listed_tickets : List Text → List Ticket → List Ticket
listed_tickets [] ts = ts
listed_tickets (ns ∷ rest) ts = listed_tickets rest (ts ++ two_tickets)

list_each-listed_tickets :
    (names : List Text) (ts : List Ticket) (at : Trace)
    → (list_each busy names [] ts at).0 ≡ some (ok ([], listed_tickets names ts))
unfolding list_each list_both listed_tickets
list_each-listed_tickets [] ts at = refl
list_each-listed_tickets (ns ∷ rest) ts at = list_each-listed_tickets rest (ts ++ two_tickets) _

scoped_tickets : Quota → List Ticket
unfolding listed_tickets
scoped_tickets quota = elim quota.spec.scope.kind [
  | QuotaScopeType.cluster ↦ two_tickets
  | QuotaScopeType.namespace_list ↦ listed_tickets quota.spec.scope.namespaces []
  | _ ↦ []
]

usage_of : Quota → ResourceList
unfolding enter_count scoped_tickets
usage_of quota =
    enter_count busy (codes "tickets") (length (scoped_tickets quota))
      (enter_count busy (codes "orders") 0 [])

usage_of_steady :
    (quota : Quota) (at : Trace) → (quota_usage busy quota at).0 ≡ some (ok (usage_of quota))
unfolding quota_usage resources_in_scope list_both scoped_tickets usage_of
usage_of_steady quota at =
    ground (arith, list_each-listed_tickets quota.spec.scope.namespaces [] at)

validate_create_lem_example :
    (v : Verdict) × ((validate_create busy three []).0 ≡ some v)
    × (is_some v.error
        ≡ not (
            allb
              (has_room busy usage_of (codes "prod") (resource_requests busy three))
              (five_tickets ∷ [])
            && not (is_some (validate_spec busy three).error)))
validate_create_lem_example =
    validate_create_lem busy usage_of three (five_tickets ∷ []) [] refl usage_of_steady

abbrev five : Order
five = order_with RefreshPolicy.unset (some (pos 5))

validate_update-tickets_example :
    (at : Trace) × (both : Scoped) × ((resources_in_scope busy five_tickets at).0 ≡ some (ok both))
    × (scale metered_busy.unit (pos (length both.1))
          +ℤ (scale metered_busy.unit (get_or five.spec.replicas (pos 1))
              -ℤ scale metered_busy.unit (get_or three.spec.replicas (pos 1)))
        ≤ℤ metered_busy.measure (metered (pos 5)))
unfolding validate_update validate_growth validate_immutable deltas validate_against_quotas
    check_projected quota_applies quota_usage resources_in_scope list_each list_both enter_count
    is_exceeded project lookup insert text_eq resource_requests ◌+ℤ◌ ◌-ℤ◌
validate_update-tickets_example =
    validate_update-tickets busy metered_busy three five (five_tickets ∷ []) 0 five_tickets
      (metered (pos 5)) [] (accept []) (busy_server-unit (five_tickets ∷ []) two_tickets)
      (omega arith) refl refl refl refl refl refl

-- The same limit for the whole cluster.
abbrev whole_cluster : Quota
whole_cluster = record five_tickets {
  spec = record five_tickets.spec {
    scope = record five_tickets.spec.scope { kind = QuotaScopeType.cluster };
  };
}

-- One order beside the two tickets.
three-Fits :
    Fits
      (busy_server (whole_cluster ∷ []) two_tickets)
      (busy_server-IsMeasured (whole_cluster ∷ []) two_tickets)
      two_tickets
      (metered (pos 5))
      three
unfolding validate_spec
three-Fits = ((λ os. refl), busy_server-fits (whole_cluster ∷ []) two_tickets 2 3 5 (omega arith))

admits_in_turn_lem_example :
    admits_in_turn (busy_server (whole_cluster ∷ []) two_tickets) [] (three ∷ three ∷ three ∷ [])
    ≡ true
admits_in_turn_lem_example =
    admits_in_turn_lem (busy_server (whole_cluster ∷ []) two_tickets)
      (busy_server-IsMeasured (whole_cluster ∷ []) two_tickets) two_tickets whole_cluster
      (metered (pos 5)) [] (three ∷ three ∷ three ∷ []) (λ tr. refl) refl refl (λ tr. refl)
      (three-Fits, (three-Fits, (three-Fits, tt)))
