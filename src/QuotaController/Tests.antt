-- ===== src/QuotaController/Tests.antt =====
-- The theorems on the reconciler of quotas at concrete inputs.
use korder.Prelude.{◌≡◌, refl, none, some, List, [], ◌∷◌, if◌then◌else◌}
use korder.Prelude.Int.{ℤ, pos, ◌+ℤ◌, ◌≤ℤ◌}
use korder.Prelude.Text.{Text, codes, text_eq, lookup, insert}
use korder.Api.Meta.{Key, ResourceList}
use korder.Api.Ticket.{Ticket, TicketPhase}
use korder.Api.Condition.{Condition, holds, condition}
use korder.Api.Quota.{Quota, QuotaScopeType}
use korder.Client.{Cluster, Trace, ok, read_clock, update_quota_status, get_quota}
use korder.Client.Sample.{metered, named_meta, ticket_in, plain_spec}
use korder.QuotaController.Scope.{Scoped, resources_in_scope, list_scope, list_tickets_in}
use korder.QuotaController.Count.{
  resource_usage, count_resources, count_lists, requested, add_requests, enter_total,
}
use korder.QuotaController.Limits.{current_limits, active_multiplier, active_time_window}
use korder.QuotaController.Reconcile.{reconcile}
use korder.QuotaController.Validate.{quota_applies, limits_of, validate_quota}
use korder.QuotaController.Totals.{resource_usage-IsCounted, IsCounted}
use korder.QuotaController.Bounds.{validate_quota-within}
use korder.QuotaController.Reports.{Says, reconcile-reports, reconcile-keeps_exceeded}
use korder.Usage.{check_projected, is_exceeded, project, enter_count}
use korder.Usage.Measure.{IsMeasured, amount_at, sum_at}
use korder.Usage.Sample.{busy_server, busy_server-IsMeasured}

-- A quota of the cluster, with what it limits.
abbrev cluster_quota : ResourceList → List Condition → Quota
cluster_quota hard conditions = record {
  meta = record (named_meta (codes "q")) { finalizers = codes "korder.dev/quota-finalizer" ∷ [] };
  spec = record {
    scope = record {
      kind = QuotaScopeType.cluster;
      namespace_selector = none;
      namespaces = [];
      object_selector = none;
    };
    hard = some hard;
    time_windows = [];
    allocation = [];
  };
  status = record {
    hard = none;
    used = none;
    active_time_window = none;
    observed_generation = none;
    conditions = conditions;
  };
}

abbrev cpu_ticket : Text → ℤ → Ticket
cpu_ticket name cpu = record (ticket_in TicketPhase.ready name) {
  spec = record plain_spec {
    resources = some (record { requests = some ((codes "cpu", metered cpu) ∷ []); limits = none });
  };
}

abbrev two_tickets : List Ticket
two_tickets = cpu_ticket (codes "t1") (pos 2) ∷ cpu_ticket (codes "t2") (pos 3) ∷ []

abbrev usage_of_two : ResourceList
usage_of_two = (codes "tickets", metered (pos 2)) ∷ (codes "reserved.cpu", metered (pos 5)) ∷ []

abbrev six_cpus : Quota
six_cpus = cluster_quota ((codes "reserved.cpu", metered (pos 6)) ∷ []) []

abbrev busy : Quota → Cluster
busy quota = busy_server (quota ∷ []) two_tickets

abbrev metered_busy : (quota : Quota) → IsMeasured (busy quota)
metered_busy quota = busy_server-IsMeasured (quota ∷ []) two_tickets

usage_counted :
    (at : Trace) → (resource_usage (busy six_cpus) six_cpus at).0 ≡ some (ok usage_of_two)
unfolding resource_usage resources_in_scope list_scope list_tickets_in count_resources count_lists
    add_requests requested enter_total enter_count lookup insert text_eq ◌+ℤ◌
usage_counted at = refl

resource_usage-IsCounted_example :
    (found : Scoped) × ((resources_in_scope (busy six_cpus) six_cpus []).0 ≡ some (ok found))
    × IsCounted (busy six_cpus) (metered_busy six_cpus) found usage_of_two
resource_usage-IsCounted_example =
    resource_usage-IsCounted (busy six_cpus) (metered_busy six_cpus) six_cpus [] usage_of_two
      (usage_counted [])

abbrev one_cpu : ResourceList
one_cpu = (codes "reserved.cpu", metered (pos 1)) ∷ []

validate_quota-within_example :
    (at : Trace) × (usage : ResourceList) × ((resource_usage (busy six_cpus) six_cpus at).0
      ≡ some (ok usage))
    × (amount_at (busy six_cpus) (metered_busy six_cpus) (codes "reserved.cpu") usage
          +ℤ sum_at (busy six_cpus) (metered_busy six_cpus) (codes "reserved.cpu") one_cpu
        ≤ℤ (metered_busy six_cpus).measure (metered (pos 6)))
unfolding validate_quota check_projected quota_applies is_exceeded project resource_usage
    resources_in_scope list_scope list_tickets_in count_resources count_lists add_requests requested
    enter_total enter_count lookup insert text_eq ◌+ℤ◌ current_limits active_multiplier
    active_time_window
validate_quota-within_example =
    validate_quota-within (busy six_cpus) (metered_busy six_cpus) (codes "prod") one_cpu
      (six_cpus ∷ []) 0 six_cpus (codes "reserved.cpu") (metered (pos 6)) [] refl refl refl
      (λ at. refl) refl refl

abbrev key : Key
key = record { namespace = codes "prod"; name = codes "q" }

reconcile-reports_example :
    (q : Quota) × ((reconcile (busy six_cpus) key []).1
      ≡ update_quota_status q
        ∷ read_clock
        ∷ (resource_usage (busy six_cpus) six_cpus (get_quota key ∷ [])).1)
    × (q.status.used ≡ some usage_of_two)
    × (q.status.hard ≡ current_limits (busy six_cpus) six_cpus)
    × Says
        (if is_exceeded (busy six_cpus) usage_of_two (limits_of (busy six_cpus) six_cpus)
          then codes "Exceeded"
          else codes "Enforced")
        q
unfolding text_eq
reconcile-reports_example =
    reconcile-reports (busy six_cpus) key six_cpus usage_of_two [] (refl, refl, refl)
      (usage_counted (get_quota key ∷ []))

abbrev once_exceeded : Quota
once_exceeded = cluster_quota ((codes "reserved.cpu", metered (pos 6)) ∷ []) (
    record {
      kind = codes "Exceeded";
      status = holds;
      last_transition_time = none;
      reason = none;
      message = none;
    }
    ∷ [])

reconcile-keeps_exceeded_example :
    (q : Quota) × ((reconcile (busy once_exceeded) key []).1
      ≡ update_quota_status q
        ∷ read_clock
        ∷ (resource_usage (busy once_exceeded) once_exceeded (get_quota key ∷ [])).1)
    × Says (codes "Enforced") q
    × Says (codes "Exceeded") q
unfolding resource_usage resources_in_scope list_scope list_tickets_in count_resources count_lists
    add_requests requested enter_total enter_count is_exceeded lookup insert text_eq ◌+ℤ◌
    current_limits active_multiplier active_time_window condition
reconcile-keeps_exceeded_example =
    reconcile-keeps_exceeded (busy once_exceeded) key once_exceeded usage_of_two []
      (refl, refl, refl) refl refl refl
