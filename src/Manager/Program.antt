-- ===== src/Manager/Program.antt =====
-- What the start of cmd/main.go comes to as a whole.
use mathlib.Core.Path.{fun_ext}
use korder.Prelude.{
  ◌≡◌, refl, Bool, true, false, not, List, [], ◌∷◌, ◌++◌, append_assoc, arith, is_empty,
}
use korder.Prelude.Text.{codes}
use korder.Metrics.Vectors.{registered}
use korder.Manager.Slices.{webhook_certs, metrics_certs, Heap, Slice, Watcher}
use korder.Manager.Setup.{
  Flags, Options, Host, SetupCall, add_to_scheme, register_metrics, get_config, new_manager,
  new_controller, new_webhook, add_watcher, add_healthz_check, add_readyz_check, start_manager, Run,
  ◌>>=◌, ◌>>◌, attempt,
}
use korder.Manager.Options.{manager_options, tls_options, watch_certs}
use korder.Manager.Start.{
  order_controller, ticket_controller, quota_controller, ticket_webhook, order_webhook, pod_webhook,
  quota_webhook, webhooks_enabled, init, register_all, start, main, program,
}
use korder.Manager.Plan.{only, planned, scheme_calls, cert_calls, register_calls, start_calls}
use korder.Manager.Follows.{
  Follows, Follows-attempt, Follows-when, Follows-then, watched, tls_at, Follows-watch_certs,
  Follows-tls_options,
}

>>=-assoc {ℓ κ} :
    {A : Type ℓ} {B : Type κ} (m : Run A) (f : A → Run B) (k : B → Run (Unit {0}))
    → ((m >>= f) >>= k) ≡ (m >>= λ a. f a >>= k)
>>=-assoc m f k = fun_ext λ s. ground arith

module _ (host : Host) (flags : Flags) (h : Heap) where
  -- The slices of the two servers in turn, with the heap after them.
  abbrev pub webhook_tls_at : Slice × Heap
  webhook_tls_at =
      let (tls, h1) = tls_at host flags.enable_http2 h in
      watched host webhook_certs flags.webhook_cert_path tls h1

  abbrev pub metrics_tls_at : Slice × Heap
  metrics_tls_at =
      watched host metrics_certs flags.metrics_cert_path (tls_at host flags.enable_http2 h).0
        webhook_tls_at.1

  abbrev pub options_at : Options
  options_at = record {
    metrics = record {
      bind_address = flags.metrics_addr;
      secure_serving = flags.secure_metrics;
      tls_opts = metrics_tls_at.0;
      filtered = flags.secure_metrics;
    };
    webhook_tls_opts = webhook_tls_at.0;
    probe_address = flags.probe_addr;
    leader_election = flags.enable_leader_election;
    leader_election_id = codes "c7c87803.korder.dev";
  }

  abbrev options_with : Slice → Slice → Options
  options_with webhook_tls metrics_tls = record options_at {
    metrics = record options_at.metrics { tls_opts = metrics_tls };
    webhook_tls_opts = webhook_tls;
  }

  abbrev watching : Watcher → Slice → Run Slice
  watching Watcher.webhook_certs tls =
      watch_certs host webhook_certs flags.webhook_cert_path flags.webhook_cert_name
        flags.webhook_cert_key tls
  watching Watcher.metrics_certs tls =
      watch_certs host metrics_certs flags.metrics_cert_path flags.metrics_cert_name
        flags.metrics_cert_key tls

  manager_options->>= :
      (k : Options → Run (Unit {0}))
      → (manager_options host flags >>= k) ≡ (
          tls_options host flags >>= λ tls. watching webhook_certs tls >>= λ w.
          watching metrics_certs tls >>= λ m. k (options_with w m))
  unfolding manager_options
  manager_options->>= k = fun_ext λ s. ground arith

  pub manager_options-Follows :
      (h2 : Heap) (k : Options → Run (Unit {0})) (cs : List SetupCall)
      → Follows host metrics_tls_at.1 (k options_at) cs h2
      → Follows host h (manager_options host flags >>= k) (cert_calls host flags ++ cs) h2
  manager_options-Follows h2 k cs rest =
      let (tls, h1) = tls_at host flags.enable_http2 h in
      let (w, h3) = webhook_tls_at in
      rw (manager_options->>= k, append_assoc)
        (Follows-tls_options host h h2 flags
          (λ x. watching webhook_certs x >>= λ w.
            watching metrics_certs x >>= λ m. k (options_with w m))
          _
          (Follows-watch_certs host h1 h2 tls webhook_certs flags.webhook_cert_path
            flags.webhook_cert_name flags.webhook_cert_key
            (λ w. watching metrics_certs tls >>= λ m. k (options_with w m)) _
            (Follows-watch_certs host h3 h2 tls metrics_certs flags.metrics_cert_path
              flags.metrics_cert_name flags.metrics_cert_key (λ m. k (options_with w m)) cs rest)))

each_call : Bool → List SetupCall
each_call b =
    (new_controller order_controller ∷ [])
    ++ ((new_controller ticket_controller ∷ [])
        ++ (only b (new_webhook ticket_webhook)
            ++ (only b (new_webhook order_webhook)
                ++ (only b (new_webhook pod_webhook)
                    ++ ((new_controller quota_controller ∷ [])
                        ++ only b (new_webhook quota_webhook))))))

each_call_lem : (b : Bool) → each_call b ≡ register_calls b
unfolding each_call
each_call_lem true = refl
each_call_lem false = refl

register_all-Follows :
    (host : Host) (h : Heap)
    → Follows host h (register_all host) (register_calls (webhooks_enabled host)) h
unfolding register_all each_call
register_all-Follows host h =
    let b = webhooks_enabled host in
    let each : Follows host h (register_all host) (each_call b) h =
      Follows-then host (Follows-attempt host h (new_controller order_controller)) (
        Follows-then host (Follows-attempt host h (new_controller ticket_controller)) (
          Follows-then host (Follows-when host h b (new_webhook ticket_webhook)) (
            Follows-then host (Follows-when host h b (new_webhook order_webhook)) (
              Follows-then host (Follows-when host h b (new_webhook pod_webhook)) (
                Follows-then host (Follows-attempt host h (new_controller quota_controller))
                  (Follows-when host h b (new_webhook quota_webhook))))))) in
    rw (← each_call_lem b) each

start-Follows :
    (host : Host) (flags : Flags) (h : Heap)
    → Follows host h (start host flags) (start_calls flags) h
unfolding start
start-Follows host flags h =
    Follows-then host
      (Follows-when host h (not (is_empty flags.metrics_cert_path)) (add_watcher metrics_certs))
      (Follows-then host
        (Follows-when host h (not (is_empty flags.webhook_cert_path)) (add_watcher webhook_certs))
        (Follows-then host (Follows-attempt host h (add_healthz_check (codes "healthz"))) (
          Follows-then host (Follows-attempt host h (add_readyz_check (codes "readyz")))
            (Follows-attempt host h start_manager))))

init-Follows : (host : Host) (h : Heap) → Follows host h (init host) scheme_calls h
unfolding init
init-Follows host h =
    Follows-then host (Follows-attempt host h (add_to_scheme (codes "client-go"))) (
      Follows-then host (Follows-attempt host h (add_to_scheme (codes "core.korder.dev/v1alpha1")))
        (Follows-attempt host h (register_metrics registered)))

pub program-Follows :
    (host : Host) (flags : Flags) (h : Heap)
    → Follows host h
        (program host flags)
        (planned host flags (webhooks_enabled host) (options_at host flags h))
        (metrics_tls_at host flags h).1
unfolding program main
program-Follows host flags h =
    let h2 = (metrics_tls_at host flags h).1 in
    let o = options_at host flags h in
    let cs =
      get_config ∷ new_manager o ∷ (register_calls (webhooks_enabled host) ++ start_calls flags) in
    let made : Follows host h2
        (attempt host get_config
          >> (attempt host (new_manager o) >> (register_all host >> start host flags)))
        cs h2 =
      Follows-then host (Follows-attempt host h2 get_config) (
        Follows-then host (Follows-attempt host h2 (new_manager o))
          (Follows-then host (register_all-Follows host h2) (start-Follows host flags h2))) in
    Follows-then host (init-Follows host h) (
      manager_options-Follows host flags h h2
        (λ o.
          attempt host get_config
          >> (attempt host (new_manager o) >> (register_all host >> start host flags)))
        cs made)
