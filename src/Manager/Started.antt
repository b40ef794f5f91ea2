-- ===== src/Manager/Started.antt =====
-- The calls that a run of cmd/main.go makes, and its end.
use mathlib.Core.List.{reverse_aux}
use korder.Prelude.{◌≡◌, refl, sym, ap, ◌∙◌, inl, inr, List, [], ◌∷◌, arith, Bool-cases}
use korder.Manager.Slices.{Heap}
use korder.Manager.Setup.{Flags, Options, Host, SetupCall, Result, State, at, running}
use korder.Manager.Start.{webhooks_enabled, program}
use korder.Manager.Plan.{planned, on_failure, follow}
use korder.Manager.Program.{options_at, metrics_tls_at, program-Follows}

-- The options are those of the flags, apart from TLS: the metrics endpoint is protected exactly if it
-- is served by HTTPS.
abbrev pub AreFlagged : Flags → Options → Type 0
AreFlagged flags o =
    (o.metrics.bind_address ≡ flags.metrics_addr)
    × (o.metrics.secure_serving ≡ flags.secure_metrics)
    × (o.metrics.filtered ≡ flags.secure_metrics)
    × (o.probe_address ≡ flags.probe_addr)
    × (o.leader_election ≡ flags.enable_leader_election)

-- For every host and flags, from any heap, there are manager options with the addresses, the
-- protection of the metrics endpoint and the leader election of the flags, for which the program makes
-- the calls of the plan in order, up to the first that fails, and none after it: a failing call of init
-- panics, a failing call of main exits with code 1, and otherwise the program returns. The plan has
-- all three controllers, and the four webhooks unless ENABLE_WEBHOOKS is "false".
pub program-planned :
    (host : Host) (flags : Flags) (h : Heap)
    → (o : Options) × AreFlagged flags o
      × (((program host flags (at h [])).0, (program host flags (at h [])).1.calls)
          ≡ follow host (planned host flags (webhooks_enabled host) o) [])
program-planned host flags h = (
  options_at host flags h,
  (refl, refl, refl, refl, refl),
  ((program-Follows host flags h).run []).0,
)

failure-running : (c : SetupCall) → on_failure c ≡ running tt → ⊥
failure-running c e = grind arith

follow-running :
    (host : Host) (cs made calls : List SetupCall)
    → (running tt, calls) ≡ follow host cs made
    → calls ≡ reverse_aux cs made
unfolding follow
follow-running host [] made calls e = ap (λ p. p.1) e
follow-running host (c ∷ cs) made calls e = elim (Bool-cases (host.fails made c)) [
  | inl fails ↦
      let ends : (◌≡◌ {A = Result (Unit {0}) × List SetupCall} (running tt, calls)
          (on_failure c, c ∷ made)) =
        rw (follow, fails) at e in
      absurd (failure-running c (sym (ap (λ p. p.0) ends)))
  | inr passes ↦
      let rest : (running tt, calls) ≡ follow host cs (c ∷ made) = rw (follow, passes) at e in
      follow-running host cs (c ∷ made) calls rest
]

-- A run that returns has made every call of its plan, in order.
pub program-calls :
    (host : Host) (flags : Flags) (h : Heap) (s : State)
    → program host flags (at h []) ≡ (running tt, s)
    → (s.calls
        ≡ reverse_aux (planned host flags (webhooks_enabled host) (options_at host flags h)) [])
      × (s.heap ≡ (metrics_tls_at host flags h).1)
program-calls host flags h s returns =
    let (ends, kept) = (program-Follows host flags h).run [] in
    (
      follow-running host _ [] s.calls (ap (λ p. (p.0, p.1.calls)) (sym returns) ∙ ends),
      ap (λ p. p.1.heap) (sym returns) ∙ kept (ap (λ p. p.0) returns),
    )
