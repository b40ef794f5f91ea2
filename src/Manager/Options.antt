-- ===== src/Manager/Options.antt =====
-- cmd/main.go: the options of the metrics server and of the webhook server.
use korder.Prelude.{not, is_empty, if◌then◌else◌}
use korder.Prelude.Text.{Text, codes}
use korder.Manager.Slices.{
  Watcher, webhook_certs, metrics_certs, disable_http2, get_certificate, Slice, nil_slice,
}
use korder.Manager.Setup.{
  Flags, Options, Host, new_cert_watcher, Run, pure, ◌>>=◌, ◌>>◌, attempt, push,
}

-- tlsOpts
unfoldable pub tls_options : Host → Flags → Run Slice
tls_options host flags =
    if flags.enable_http2 then pure nil_slice else push host nil_slice disable_http2

-- The certificate watcher and the TLS options with its certificate, where a path is given.
unfoldable pub watch_certs : Host → Watcher → Text → Text → Text → Slice → Run Slice
watch_certs host w path name key opts =
    if not (is_empty path)
    then (attempt host (new_cert_watcher (host.join_paths path name) (host.join_paths path key))
        >> push host opts (get_certificate w))
    else pure opts

-- The options that NewManager is called with.
unfoldable pub manager_options : Host → Flags → Run Options
manager_options host flags = do
  tls ← tls_options host flags
  webhook_tls ←
      watch_certs host webhook_certs flags.webhook_cert_path flags.webhook_cert_name
        flags.webhook_cert_key tls
  metrics_tls ←
      watch_certs host metrics_certs flags.metrics_cert_path flags.metrics_cert_name
        flags.metrics_cert_key tls
  pure (record {
    metrics = record {
      bind_address = flags.metrics_addr;
      secure_serving = flags.secure_metrics;
      tls_opts = metrics_tls;
      filtered = flags.secure_metrics;
    };
    webhook_tls_opts = webhook_tls;
    probe_address = flags.probe_addr;
    leader_election = flags.enable_leader_election;
    leader_election_id = codes "c7c87803.korder.dev";
  })
