-- ===== src/Manager/Start.antt =====
-- cmd/main.go: init and main, with SetupWithManager of the controllers (internal/controller) and the
-- registrations of the webhooks (internal/webhook).
use korder.Prelude.{Bool, not, is_empty, [], ◌∷◌}
use korder.Prelude.Text.{codes, text_eq}
use korder.Metrics.Vectors.{registered}
use korder.Manager.Slices.{webhook_certs, metrics_certs}
use korder.Manager.Setup.{
  Flags, Kind, Controller, Webhook, Host, add_to_scheme, register_metrics, get_config, new_manager,
  new_controller, new_webhook, add_watcher, add_healthz_check, add_readyz_check, start_manager, Run,
  ◌>>=◌, ◌>>◌, attempt, must, when,
}
use korder.Manager.Options.{manager_options}

-- OrderReconciler.SetupWithManager
unfoldable pub order_controller : Controller
order_controller = record { for_kind = Kind.order; owns = Kind.ticket ∷ []; named = codes "order" }

-- TicketReconciler.SetupWithManager
unfoldable pub ticket_controller : Controller
ticket_controller = record { for_kind = Kind.ticket; owns = Kind.pod ∷ []; named = codes "ticket" }

-- QuotaReconciler.SetupWithManager
unfoldable pub quota_controller : Controller
quota_controller = record { for_kind = Kind.quota; owns = []; named = codes "quota" }

-- SetupTicketWebhookWithManager
unfoldable pub ticket_webhook : Webhook
ticket_webhook = record { for_kind = Kind.ticket; validator = Kind.ticket; defaulter = Kind.ticket }

-- SetupOrderWebhookWithManager
unfoldable pub order_webhook : Webhook
order_webhook = record { for_kind = Kind.order; validator = Kind.order; defaulter = Kind.order }

-- SetupPodWebhookWithManager
unfoldable pub pod_webhook : Webhook
pod_webhook = record { for_kind = Kind.pod; validator = Kind.pod; defaulter = Kind.pod }

-- SetupQuotaWebhookWithManager
unfoldable pub quota_webhook : Webhook
quota_webhook = record { for_kind = Kind.quota; validator = Kind.quota; defaulter = Kind.quota }

abbrev pub webhooks_enabled : Host → Bool
webhooks_enabled host = not (text_eq host.enable_webhooks (codes "false"))

-- init
unfoldable pub init : Host → Run (Unit {0})
init host = do
  must host (add_to_scheme (codes "client-go"))
  must host (add_to_scheme (codes "core.korder.dev/v1alpha1"))
  must host (register_metrics registered)

-- The part of main that registers the controllers and the webhooks.
unfoldable pub register_all : Host → Run (Unit {0})
register_all host = do
  attempt host (new_controller order_controller)
  attempt host (new_controller ticket_controller)
  when (webhooks_enabled host) (attempt host (new_webhook ticket_webhook))
  when (webhooks_enabled host) (attempt host (new_webhook order_webhook))
  when (webhooks_enabled host) (attempt host (new_webhook pod_webhook))
  attempt host (new_controller quota_controller)
  when (webhooks_enabled host) (attempt host (new_webhook quota_webhook))

-- The rest of main: the watchers that were created, the checks, and the start.
unfoldable pub start : Host → Flags → Run (Unit {0})
start host flags = do
  when (not (is_empty flags.metrics_cert_path)) (attempt host (add_watcher metrics_certs))
  when (not (is_empty flags.webhook_cert_path)) (attempt host (add_watcher webhook_certs))
  attempt host (add_healthz_check (codes "healthz"))
  attempt host (add_readyz_check (codes "readyz"))
  attempt host start_manager

-- main
unfoldable pub main : Host → Flags → Run (Unit {0})
main host flags = do
  options ← manager_options host flags
  attempt host get_config
  attempt host (new_manager options)
  register_all host
  start host flags

-- The program: init, then main.
unfoldable pub program : Host → Flags → Run (Unit {0})
program host flags = init host >> main host flags
