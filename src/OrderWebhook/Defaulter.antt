-- ===== src/OrderWebhook/Defaulter.antt =====
-- internal/webhook/v1alpha1/order_webhook.go: OrderCustomDefaulter.
use korder.Prelude.{false, not, ◌&&◌, Option, none, some, if◌then◌else◌, is_empty, is_some, get_or}
use korder.Prelude.Int.{pos}
use korder.Prelude.Text.{Text, codes, insert}
use korder.Api.Meta.{Labels}
use korder.Api.Ticket.{TicketLifecycle, WindowSpec, TicketSpec, CleanupPolicy}
use korder.Api.Order.{Order, RefreshPolicy}
use korder.TicketWebhook.Defaulter.{is_delete}

unfoldable pub default_window : Option WindowSpec → WindowSpec
default_window none = record { start_time = none; time_zone = none; duration = codes "24h" }
default_window (some w) = if is_empty w.duration then record w { duration = codes "24h" } else w

unfoldable pub default_lifecycle : Option TicketLifecycle → TicketLifecycle
unfolding is_delete
default_lifecycle lifecycle =
    let l : TicketLifecycle =
      get_or lifecycle
        (record { ttl_seconds_after_finished = none; cleanup_policy = CleanupPolicy.delete }) in
    if is_delete l.cleanup_policy && not (is_some l.ttl_seconds_after_finished)
    then record l { ttl_seconds_after_finished = some (pos 3600) }
    else l

-- setTicketTemplateDefaults
unfoldable pub default_template : TicketSpec → TicketSpec
unfolding default_window default_lifecycle
default_template spec = record spec {
  window = some (default_window spec.window);
  lifecycle = some (default_lifecycle spec.lifecycle);
  scheduler_name = some (get_or spec.scheduler_name (codes "default-scheduler"));
}

unfoldable pub default_policy : RefreshPolicy → RefreshPolicy
default_policy RefreshPolicy.unset = RefreshPolicy.on_claim
default_policy policy = policy

-- The labels of the tickets.
unfoldable pub default_labels : Text → Text → Labels → Labels
default_labels name uid labels =
    insert (codes "korder.dev/order-uid") uid (insert (codes "korder.dev/order") name labels)

-- OrderCustomDefaulter.Default
unfoldable pub default : Order → Order
unfolding default_policy default_template default_labels
default order =
    let template = order.spec.template in
    record order {
      spec = record order.spec {
        replicas = some (get_or order.spec.replicas (pos 1));
        paused = some (get_or order.spec.paused false);
        refresh_policy = default_policy order.spec.refresh_policy;
        min_ready_seconds = some (get_or order.spec.min_ready_seconds (pos 0));
        template = record template {
          spec = default_template template.spec;
          meta = record template.meta {
            labels = default_labels order.meta.name order.meta.uid template.meta.labels;
          };
        };
      };
    }
