-- ===== src/Manager/Setup.antt =====
-- cmd/main.go: the flags, the calls that the start makes of controller-runtime, and how it ends.
-- What the calls answer is a parameter.
use korder.Prelude.{ℕ, Bool, true, false, List, [], ◌∷◌}
use korder.Prelude.Text.{Text, codes}
use korder.Metrics.Vectors.{Vector}
use korder.Manager.Slices.{Watcher, TlsOption, Heap, Slice, append}

pub record Flags : Type 0 where
  pub metrics_addr : Text
  pub probe_addr : Text
  pub enable_leader_election : Bool
  pub secure_metrics : Bool
  pub webhook_cert_path : Text
  pub webhook_cert_name : Text
  pub webhook_cert_key : Text
  pub metrics_cert_path : Text
  pub metrics_cert_name : Text
  pub metrics_cert_key : Text
  pub enable_http2 : Bool

abbrev pub default_flags : Flags
default_flags = record {
  metrics_addr = codes "0";
  probe_addr = codes ":8081";
  enable_leader_election = false;
  secure_metrics = true;
  webhook_cert_path = [];
  webhook_cert_name = codes "tls.crt";
  webhook_cert_key = codes "tls.key";
  metrics_cert_path = [];
  metrics_cert_name = codes "tls.crt";
  metrics_cert_key = codes "tls.key";
  enable_http2 = false;
}

pub data Kind : Type 0 where
  order ticket quota pod : Kind

-- What SetupWithManager builds: For, Owns and Named.
pub record Controller : Type 0 where
  pub for_kind : Kind
  pub owns : List Kind
  pub named : Text

-- What SetupTicketWebhookWithManager and the like build: For, WithValidator and WithDefaulter, the
-- last two by the kind whose rules they have.
pub record Webhook : Type 0 where
  pub for_kind : Kind
  pub validator : Kind
  pub defaulter : Kind

-- metricsserver.Options
pub record MetricsOptions : Type 0 where
  pub bind_address : Text
  pub secure_serving : Bool
  pub tls_opts : Slice
  -- Whether the endpoint is protected by filters.WithAuthenticationAndAuthorization
  pub filtered : Bool

-- ctrl.Options, with the options of the webhook server that they hold
pub record Options : Type 0 where
  pub metrics : MetricsOptions
  pub webhook_tls_opts : Slice
  pub probe_address : Text
  pub leader_election : Bool
  pub leader_election_id : Text

pub data SetupCall : Type 0 where
  add_to_scheme : Text → SetupCall
  register_metrics : List Vector → SetupCall
  new_cert_watcher : Text → Text → SetupCall
  get_config : SetupCall
  new_manager : Options → SetupCall
  new_controller : Controller → SetupCall
  new_webhook : Webhook → SetupCall
  add_watcher : Watcher → SetupCall
  add_healthz_check add_readyz_check : Text → SetupCall
  -- mgr.Start, which returns when the manager stops
  start_manager : SetupCall

pub record Host : Type 0 where
  -- os.Getenv("ENABLE_WEBHOOKS")
  pub enable_webhooks : Text
  -- filepath.Join
  pub join_paths : Text → Text → Text
  -- The capacity that append chooses
  pub capacity : ℕ → ℕ → ℕ
  -- Whether a call fails, after the calls before it, the newest first
  pub fails : List SetupCall → SetupCall → Bool

pub record State : Type 0 where
  pub calls : List SetupCall
  pub heap : Heap

abbrev pub at : Heap → List SetupCall → State
at h made = record { calls = made; heap = h }

-- How a part of the start ends: it goes on, os.Exit was called, or it panicked.
pub data Result {ℓ} (A : Type ℓ) : Type ℓ where
  running : A → Result A
  exited : ℕ → Result A
  panicked : Result A

abbrev pub Run {ℓ} : Type ℓ → Type ℓ
Run A = State → Result A × State

abbrev pub pure {ℓ} : {A : Type ℓ} → A → Run A
pure a s = (running a, s)

infixl 5 ◌>>=◌ ◌>>◌
abbrev pub ◌>>=◌ {ℓ κ} : {A : Type ℓ} {B : Type κ} → Run A → (A → Run B) → Run B
◌>>=◌ m f s =
    let (r, s') = m s in
    elim r [ running a ↦ f a s' | exited code ↦ (exited code, s') | panicked ↦ (panicked, s') ]

abbrev pub ◌>>◌ {ℓ κ} : {A : Type ℓ} {B : Type κ} → Run A → Run B → Run B
m >> k = m >>= λ _. k

-- A call after whose failure the program ends in the given way.
abbrev pub call_or : Host → Result (Unit {0}) → SetupCall → Run (Unit {0})
call_or host failed c s = (
  elim (host.fails s.calls c) [ true ↦ failed | false ↦ running tt ],
  record s { calls = c ∷ s.calls },
)

-- A call whose error is logged, before os.Exit(1). GetConfigOrDie ends in that way itself.
abbrev pub attempt : Host → SetupCall → Run (Unit {0})
attempt host = call_or host (exited 1)

-- A call that panics on an error: utilruntime.Must and MustRegister.
abbrev pub must : Host → SetupCall → Run (Unit {0})
must host = call_or host panicked

-- s = append(s, x)
abbrev pub push : Host → Slice → TlsOption → Run Slice
push host s x st =
    let (s', h) = append host.capacity s x st.heap in (running s', record st { heap = h })

-- A statement under an if.
abbrev pub when : Bool → Run (Unit {0}) → Run (Unit {0})
when true m = m
when false m = pure tt
