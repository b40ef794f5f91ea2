-- ===== src/Metrics/Vectors.antt =====
-- internal/metrics/metrics.go: the metric vectors and their registration.
use korder.Prelude.{List, [], ◌∷◌}
use korder.Prelude.Text.{Text, codes}

pub data Kind : Type 0 where
  counter gauge histogram : Kind

-- A vector has one series for each list of values of its labels. The histograms have Prometheus'
-- own buckets (prometheus.DefBuckets).
pub record Vector : Type 0 where
  pub kind : Kind
  pub name : Text
  pub help : Text
  pub labels : List Text

unfoldable pub orders_total : Vector
orders_total = record {
  kind = Kind.counter;
  name = codes "korder_orders_total";
  help = codes "Total number of orders created";
  labels = codes "namespace" ∷ codes "strategy" ∷ [];
}

unfoldable pub orders_active : Vector
orders_active = record {
  kind = Kind.gauge;
  name = codes "korder_orders_active";
  help = codes "Number of currently active orders";
  labels = codes "namespace" ∷ codes "strategy" ∷ [];
}

unfoldable pub tickets_total : Vector
tickets_total = record {
  kind = Kind.counter;
  name = codes "korder_tickets_total";
  help = codes "Total number of tickets created";
  labels = codes "namespace" ∷ codes "phase" ∷ [];
}

unfoldable pub tickets_active : Vector
tickets_active = record {
  kind = Kind.gauge;
  name = codes "korder_tickets_active";
  help = codes "Number of currently active tickets";
  labels = codes "namespace" ∷ codes "phase" ∷ [];
}

unfoldable pub guardian_pods_total : Vector
guardian_pods_total = record {
  kind = Kind.counter;
  name = codes "korder_guardian_pods_total";
  help = codes "Total number of guardian pods created";
  labels = codes "namespace" ∷ [];
}

unfoldable pub quota_usage : Vector
quota_usage = record {
  kind = Kind.gauge;
  name = codes "korder_quota_usage_ratio";
  help = codes "Current quota usage as a ratio (0-1)";
  labels = codes "quota_name" ∷ codes "resource_type" ∷ [];
}

unfoldable pub quota_limits : Vector
quota_limits = record {
  kind = Kind.gauge;
  name = codes "korder_quota_limits";
  help = codes "Current quota limits";
  labels = codes "quota_name" ∷ codes "resource_type" ∷ [];
}

unfoldable pub reserved_resources : Vector
reserved_resources = record {
  kind = Kind.gauge;
  name = codes "korder_reserved_resources";
  help = codes "Currently reserved resources";
  labels = codes "namespace" ∷ codes "resource_type" ∷ codes "unit" ∷ [];
}

unfoldable pub claimed_resources : Vector
claimed_resources = record {
  kind = Kind.gauge;
  name = codes "korder_claimed_resources";
  help = codes "Currently claimed resources";
  labels = codes "namespace" ∷ codes "resource_type" ∷ codes "unit" ∷ [];
}

unfoldable pub reconciliation_duration : Vector
reconciliation_duration = record {
  kind = Kind.histogram;
  name = codes "korder_reconciliation_duration_seconds";
  help = codes "Time spent reconciling resources";
  labels = codes "controller" ∷ codes "result" ∷ [];
}

unfoldable pub webhook_duration : Vector
webhook_duration = record {
  kind = Kind.histogram;
  name = codes "korder_webhook_duration_seconds";
  help = codes "Time spent processing webhook requests";
  labels = codes "webhook" ∷ codes "operation" ∷ codes "result" ∷ [];
}

unfoldable pub reconciliation_errors : Vector
reconciliation_errors = record {
  kind = Kind.counter;
  name = codes "korder_reconciliation_errors_total";
  help = codes "Total number of reconciliation errors";
  labels = codes "controller" ∷ codes "error_type" ∷ [];
}

unfoldable pub webhook_errors : Vector
webhook_errors = record {
  kind = Kind.counter;
  name = codes "korder_webhook_errors_total";
  help = codes "Total number of webhook errors";
  labels = codes "webhook" ∷ codes "operation" ∷ codes "error_type" ∷ [];
}

-- What RegisterMetrics passes to MustRegister.
unfoldable pub registered : List Vector
registered =
    orders_total ∷ orders_active ∷ tickets_total ∷ tickets_active ∷ guardian_pods_total
    ∷ quota_usage ∷ quota_limits ∷ reserved_resources ∷ claimed_resources ∷ reconciliation_duration
    ∷ webhook_duration ∷ reconciliation_errors ∷ webhook_errors ∷ []
