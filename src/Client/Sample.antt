-- ===== src/Client/Sample.antt =====
-- Objects and a server for the tests: the server has no object, and every write succeeds.
use korder.Prelude.{ℕ, Option, none, some, [], ◌∷◌, filterb, anyb, not, false, true, ltb, get_or}
use korder.Prelude.Decimal.{atoi, print_ℤ}
use korder.Prelude.Int.{ℤ, pos, negsuc, ltb_ℤ, eqb_ℤ, ◌+ℤ◌, ◌-ℤ◌}
use korder.Prelude.Text.{Text, codes, text_eq}
use korder.Api.Meta.{ObjectMeta, Pod, PodPhase, Quantity}
use korder.Api.Ticket.{Ticket, TicketPhase, TicketSpec, TicketStatus}
use korder.Api.Order.{Order, RefreshPolicy}
use korder.Client.{Cluster, ok, err, not_found}

-- The value of a number that is not negative.
abbrev pos_of : Option ℤ → Option ℕ
pos_of (some (pos n)) = some n
pos_of _ = none

abbrev pub sample_server : Cluster
sample_server = record {
  now = λ tr. pos 100;
  ticket_at = λ tr k. err (not_found k.name);
  order_at = λ tr k. err (not_found k.name);
  pod_at = λ tr k. err (not_found k.name);
  tickets_at = λ tr ns ls. ok [];
  quotas_at = λ tr. ok [];
  quota_at = λ tr k. err (not_found k.name);
  orders_at = λ tr s. ok [];
  daemon_orders_at = λ tr s. ok [];
  cron_orders_at = λ tr s. ok [];
  selected_tickets_at = λ tr s. ok [];
  namespaces_at = λ tr s. ok [];
  namespace_at = λ tr name. err (not_found name);
  created_pod = λ tr p. ok p;
  write_error = λ tr c. none;
  contains_finalizer = λ m f. anyb (text_eq f) m.finalizers;
  add_finalizer = λ m f. record m { finalizers = f ∷ m.finalizers };
  remove_finalizer = λ m f. record m { finalizers = filterb (λ g. not (text_eq f g)) m.finalizers };
  set_controller_reference = λ owner m. ok (record m { owner_references = owner.uid ∷ [] });
  parse_duration = λ s. ok (pos 3600000000000);
  parse_time = λ s. ok (pos 200);
  format_time = λ t. codes "2026-01-01T00:00:00Z";
  must_parse = λ s. s;
  print_quantity = λ q. q;
  new_quantity = λ z. print_ℤ z;
  exceeds = λ q r. ltb (get_or (pos_of (atoi r)) 0) (get_or (pos_of (atoi q)) 0);
  is_negative = λ q. false;
  same_quantity = text_eq;
  zero_quantity = codes "0";
  add_quantity = λ q r. q;
  sub_quantity = λ q r. q;
  is_zero = λ q. false;
  is_positive = λ q. true;
  value = λ q. get_or (atoi q) (pos 0);
  set_value = λ q v. print_ℤ v;
  with_format = λ q v. print_ℤ v;
  print_list = λ rs. [];
  parse_float = λ s. ok s;
  above_zero = λ m. true;
  times_float = λ v m. v;
  selector_error = λ s. none;
  selects = λ s ls. false;
}

-- The quantity of a number, and the number of a quantity.
abbrev pub metered : ℤ → Quantity
metered (pos n) = n ∷ []
metered (negsuc n) = 0 ∷ n ∷ []

abbrev pub amount : Quantity → ℤ
amount [] = pos 0
amount (n ∷ []) = pos n
amount (m ∷ n ∷ q) = negsuc n

-- A server whose quantities are numbers that it can add and compare.
abbrev pub metered_server : Cluster
metered_server = record sample_server {
  new_quantity = metered;
  zero_quantity = metered (pos 0);
  exceeds = λ q r. ltb_ℤ (amount r) (amount q);
  is_negative = λ q. ltb_ℤ (amount q) (pos 0);
  is_positive = λ q. ltb_ℤ (pos 0) (amount q);
  is_zero = λ q. eqb_ℤ (amount q) (pos 0);
  add_quantity = λ q r. metered (amount q +ℤ amount r);
  sub_quantity = λ q r. metered (amount q -ℤ amount r);
  value = amount;
  set_value = λ q v. metered v;
  with_format = λ q v. metered v;
}

abbrev pub named_meta : Text → ObjectMeta
named_meta name = record {
  name = name;
  namespace = codes "prod";
  uid = codes "7";
  generation = pos 1;
  deletion_timestamp = none;
  finalizers = codes "korder.dev/ticket-finalizer" ∷ codes "korder.dev/order-finalizer" ∷ [];
  labels = [];
  annotations = [];
  owner_references = [];
}

abbrev pub plain_spec : TicketSpec
plain_spec = record {
  lifecycle = none;
  window = none;
  scheduler_name = none;
  priority_class_name = none;
  resources = none;
  node_name = none;
  node_selector = none;
  affinity = none;
  tolerations = [];
  topology_spread_constraints = [];
}

abbrev pub status_in : TicketPhase → TicketStatus
status_in phase = record {
  phase = phase;
  activation_time = none;
  expiration_time = none;
  claimed_time = none;
  utilization_rate = none;
  node_name = none;
  guardian_pod = none;
  claimed_pod = none;
  message = none;
  reason = none;
  observed_generation = none;
  conditions = [];
}

abbrev pub ticket_in : TicketPhase → Text → Ticket
ticket_in phase name = record {
  meta = named_meta name;
  spec = plain_spec;
  status = status_in phase;
}

abbrev pub order_with : RefreshPolicy → Option ℤ → Order
order_with policy replicas = record {
  meta = named_meta (codes "web");
  spec = record {
    paused = none;
    replicas = replicas;
    refresh_policy = policy;
    min_ready_seconds = none;
    selector = none;
    template = record { meta = named_meta []; spec = plain_spec };
  };
  status = record {
    replicas = none;
    available_replicas = none;
    unavailable_replicas = none;
    terminal_replicas = none;
    updated_replicas = none;
    observed_generation = none;
    collision_count = none;
    conditions = [];
  };
}

abbrev pub bare_pod : Text → Pod
bare_pod name = record {
  meta = named_meta name;
  spec = record {
    restart_policy = codes "Always";
    containers = [];
    node_name = [];
    node_selector = none;
    affinity = none;
    tolerations = [];
    topology_spread_constraints = [];
    scheduler_name = [];
    priority_class_name = [];
  };
  phase = PodPhase.unset;
}
