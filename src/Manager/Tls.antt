-- ===== src/Manager/Tls.antt =====
-- The TLS configuration of the two servers of cmd/main.go.
use mathlib.Core.List.{reverse_aux}
use korder.Prelude.{
  ◌≤◌, ◌≡◌, Bool, false, Option, none, some, List, [], ◌∷◌, arith, is_empty, if◌then◌else◌,
}
use korder.Prelude.Text.{Text, codes}
use korder.Manager.Slices.{
  Watcher, webhook_certs, metrics_certs, TlsOption, TlsConfig, configure, Heap, append, contents,
  prefix,
}
use korder.Manager.Setup.{Flags, Options, Host, State, at, running}
use korder.Manager.Start.{webhooks_enabled, program}
use korder.Manager.Plan.{planned}
use korder.Manager.Started.{program-calls}
use korder.Manager.Program.{webhook_tls_at, metrics_tls_at, options_at}

-- The options applied in turn, `none` where one is a nil function.
unfoldable pub configure_all : List (Option TlsOption) → TlsConfig → Option TlsConfig
configure_all [] c = some c
configure_all (none ∷ xs) c = none
configure_all (some x ∷ xs) c = configure_all xs (configure x c)

-- HTTP/2 only if it is enabled, and the certificates of a watcher if there is a path to them.
abbrev pub wanted : Bool → Text → Watcher → TlsConfig → TlsConfig
wanted http2 path w c = record {
  next_protos = if http2 then c.next_protos else codes "http/1.1" ∷ [];
  certificate = if is_empty path then c.certificate else some w;
}

webhook_tls_at-wanted :
    (host : Host) (flags : Flags) (h : Heap) (c : TlsConfig)
    → host.capacity 0 1 ≡ 1
    → configure_all (contents (metrics_tls_at host flags h).1 (webhook_tls_at host flags h).0) c
      ≡ some (wanted flags.enable_http2 flags.webhook_cert_path webhook_certs c)
unfolding configure_all contents prefix append configure
webhook_tls_at-wanted host flags h c fit = ground (arith, fit)

metrics_tls_at-wanted :
    (host : Host) (flags : Flags) (h : Heap) (c : TlsConfig)
    → host.capacity 0 1 ≡ 1
    → configure_all (contents (metrics_tls_at host flags h).1 (metrics_tls_at host flags h).0) c
      ≡ some (wanted flags.enable_http2 flags.metrics_cert_path metrics_certs c)
unfolding configure_all contents prefix append configure
metrics_tls_at-wanted host flags h c fit = ground (arith, fit)

webhook_tls_at-shared :
    (host : Host) (flags : Flags) (h : Heap) (c : TlsConfig)
    → 2 ≤ host.capacity 0 1
    → flags.enable_http2 ≡ false
    → is_empty flags.webhook_cert_path ≡ false
    → is_empty flags.metrics_cert_path ≡ false
    → configure_all (contents (metrics_tls_at host flags h).1 (webhook_tls_at host flags h).0) c
      ≡ some (wanted flags.enable_http2 flags.webhook_cert_path metrics_certs c)
unfolding configure_all contents prefix append configure
webhook_tls_at-shared host flags h c room http2 web met = ground (arith, room, http2, web, met)

-- The two servers of a manager, at a heap, have these configurations, whatever they start from.
abbrev pub Serve : Heap → Options → (TlsConfig → TlsConfig) → (TlsConfig → TlsConfig) → Type 0
Serve h o webhook metrics =
    (c : TlsConfig)
    → (configure_all (contents h o.webhook_tls_opts) c ≡ some (webhook c))
      × (configure_all (contents h o.metrics.tls_opts) c ≡ some (metrics c))

-- If the program returns, and append gives a first element an array of its own size, the manager was
-- created with options for which both servers speak HTTP/2 only if it is enabled, and the webhook
-- server has the certificate of its own watcher, and the metrics server that of its own, each exactly
-- if there is a path to it; what they do not set stays as the server had it.
pub program-Serve :
    (host : Host) (flags : Flags) (h : Heap) (s : State)
    → program host flags (at h []) ≡ (running tt, s)
    → host.capacity 0 1 ≡ 1
    → (o : Options) × (s.calls ≡ reverse_aux (planned host flags (webhooks_enabled host) o) [])
      × Serve s.heap o
          (wanted flags.enable_http2 flags.webhook_cert_path webhook_certs)
          (wanted flags.enable_http2 flags.metrics_cert_path metrics_certs)
program-Serve host flags h s returns fit =
    let (made, kept) = program-calls host flags h s returns in
    (
      options_at host flags h,
      made,
      λ c. (
        rw kept (webhook_tls_at-wanted host flags h c fit),
        rw kept (metrics_tls_at-wanted host flags h c fit),
      ),
    )

-- The two slices of TLS options start as one. If append gave the first element an array with room for
-- a second, the program returned, HTTP/2 was off and there were paths to both certificates, the
-- webhook server would serve the certificate of the metrics server.
pub program-shares :
    (host : Host) (flags : Flags) (h : Heap) (s : State)
    → program host flags (at h []) ≡ (running tt, s)
    → 2 ≤ host.capacity 0 1
    → flags.enable_http2 ≡ false
    → is_empty flags.webhook_cert_path ≡ false
    → is_empty flags.metrics_cert_path ≡ false
    → (o : Options) × (s.calls ≡ reverse_aux (planned host flags (webhooks_enabled host) o) [])
      × ((c : TlsConfig)
          → configure_all (contents s.heap o.webhook_tls_opts) c
            ≡ some (wanted flags.enable_http2 flags.webhook_cert_path metrics_certs c))
program-shares host flags h s returns room http2 web met =
    let (made, kept) = program-calls host flags h s returns in
    (
      options_at host flags h,
      made,
      λ c. rw kept (webhook_tls_at-shared host flags h c room http2 web met),
    )
