-- ===== src/TicketWebhook/Defaulter.antt =====
-- internal/webhook/v1alpha1/ticket_webhook.go: TicketCustomDefaulter.
use korder.Prelude.{
  Bool, true, false, not, ◌&&◌, Option, none, some, [], ◌∷◌, if◌then◌else◌, is_empty, is_some,
  get_or,
}
use korder.Prelude.Int.{pos}
use korder.Prelude.Text.{codes}
use korder.Api.Meta.{ResourceRequirements}
use korder.Api.Ticket.{Ticket, TicketLifecycle, CleanupPolicy, WindowSpec}
use korder.Client.{Cluster, M, pure, ◌>>=◌, now}

unfoldable pub is_delete : CleanupPolicy → Bool
is_delete CleanupPolicy.delete = true
is_delete _ = false

-- The lifecycle that the defaulter leaves.
unfoldable pub default_lifecycle : Option TicketLifecycle → TicketLifecycle
unfolding is_delete
default_lifecycle lifecycle =
    let l : TicketLifecycle =
      get_or lifecycle
        (record { ttl_seconds_after_finished = none; cleanup_policy = CleanupPolicy.delete }) in
    if is_delete l.cleanup_policy && not (is_some l.ttl_seconds_after_finished)
    then record l { ttl_seconds_after_finished = some (pos 3600) }
    else l

unfoldable pub initial_window : Cluster → Option WindowSpec → M WindowSpec
initial_window env (some w) = pure w
initial_window env none = do
  at_time ← now env
  pure (record {
    start_time = some (env.format_time at_time);
    time_zone = some (codes "UTC");
    duration = codes "2h";
  })

-- What is missing of a window.
unfoldable pub fill_window : Cluster → WindowSpec → M WindowSpec
fill_window env w =
    let duration = if is_empty w.duration then codes "2h" else w.duration in
    let time_zone = some (get_or w.time_zone (codes "UTC")) in
    elim w.start_time [
      | some start ↦
          pure (record { start_time = some start; time_zone = time_zone; duration = duration })
      | none ↦ do
        at_time ← now env
        pure (record {
          start_time = some (env.format_time at_time);
          time_zone = time_zone;
          duration = duration;
        })
    ]

unfoldable pub default_resources : Cluster → ResourceRequirements
default_resources env = record {
  requests = some (
      (codes "cpu", env.must_parse (codes "100m"))
      ∷ (codes "memory", env.must_parse (codes "128Mi"))
      ∷ []);
  limits = none;
}

-- TicketCustomDefaulter.Default
unfoldable pub default : Cluster → Ticket → M Ticket
unfolding initial_window fill_window default_lifecycle default_resources
default env t = do
  initial ← initial_window env t.spec.window
  window ← fill_window env initial
  pure (record t {
    spec = record t.spec {
      lifecycle = some (default_lifecycle t.spec.lifecycle);
      window = some window;
      scheduler_name = some (get_or t.spec.scheduler_name (codes "default-scheduler"));
      resources = some (get_or t.spec.resources (default_resources env));
    };
  })
