-- ===== src/Manager/Plan.antt =====
-- The calls of cmd/main.go as a plan, and runs that follow a plan until a call fails.
use korder.Prelude.{Bool, true, false, not, List, [], ◌∷◌, ◌++◌, is_empty, if◌then◌else◌}
use korder.Prelude.Text.{codes}
use korder.Metrics.Vectors.{registered}
use korder.Manager.Slices.{webhook_certs, metrics_certs}
use korder.Manager.Setup.{
  Flags, Options, Host, SetupCall, add_to_scheme, register_metrics, new_cert_watcher, get_config,
  new_manager, new_controller, new_webhook, add_watcher, add_healthz_check, add_readyz_check,
  start_manager, Result, running, exited, panicked,
}
use korder.Manager.Start.{
  order_controller, ticket_controller, quota_controller, ticket_webhook, order_webhook, pod_webhook,
  quota_webhook,
}

-- A call under a condition.
abbrev pub only : Bool → SetupCall → List SetupCall
only b c = if b then c ∷ [] else []

abbrev pub scheme_calls : List SetupCall
scheme_calls =
    add_to_scheme (codes "client-go")
    ∷ add_to_scheme (codes "core.korder.dev/v1alpha1")
    ∷ register_metrics registered
    ∷ []

abbrev pub cert_calls : Host → Flags → List SetupCall
cert_calls host flags =
    only (not (is_empty flags.webhook_cert_path)) (
      new_cert_watcher (host.join_paths flags.webhook_cert_path flags.webhook_cert_name)
        (host.join_paths flags.webhook_cert_path flags.webhook_cert_key))
    ++ only (not (is_empty flags.metrics_cert_path)) (
        new_cert_watcher (host.join_paths flags.metrics_cert_path flags.metrics_cert_name)
          (host.join_paths flags.metrics_cert_path flags.metrics_cert_key))

-- The three controllers, and between them the four webhooks if they are wanted.
abbrev pub register_calls : Bool → List SetupCall
register_calls webhooks =
    if webhooks
    then new_controller order_controller
      ∷ new_controller ticket_controller
      ∷ new_webhook ticket_webhook
      ∷ new_webhook order_webhook
      ∷ new_webhook pod_webhook
      ∷ new_controller quota_controller
      ∷ new_webhook quota_webhook
      ∷ []
    else new_controller order_controller
      ∷ new_controller ticket_controller
      ∷ new_controller quota_controller
      ∷ []

abbrev pub start_calls : Flags → List SetupCall
start_calls flags =
    only (not (is_empty flags.metrics_cert_path)) (add_watcher metrics_certs)
    ++ (only (not (is_empty flags.webhook_cert_path)) (add_watcher webhook_certs)
        ++ (add_healthz_check (codes "healthz")
            ∷ add_readyz_check (codes "readyz")
            ∷ start_manager
            ∷ []))

abbrev pub planned : Host → Flags → Bool → Options → List SetupCall
planned host flags webhooks options =
    scheme_calls
    ++ (cert_calls host flags
        ++ (get_config ∷ new_manager options ∷ (register_calls webhooks ++ start_calls flags)))

-- How the program ends where a call fails.
abbrev pub on_failure : SetupCall → Result (Unit {0})
on_failure (add_to_scheme s) = panicked
on_failure (register_metrics vs) = panicked
on_failure _ = exited 1

module _ (host : Host) where
  -- Make the calls in turn, until one fails; the calls made before are the newest first.
  unfoldable pub follow : List SetupCall → List SetupCall → Result (Unit {0}) × List SetupCall
  follow [] made = (running tt, made)
  follow (c ∷ cs) made = elim (host.fails made c) [
    | true ↦ (on_failure c, c ∷ made)
    | false ↦ follow cs (c ∷ made)
  ]
