-- ===== src/Manager/Follows.antt =====
-- Parts of the start of cmd/main.go that follow a plan, composed as the parts are.
use korder.Prelude.{
  ◌≡◌, refl, inl, inr, Bool, true, false, not, List, [], ◌∷◌, ◌++◌, arith, is_empty, if◌then◌else◌,
  Bool-cases,
}
use korder.Prelude.Text.{Text}
use korder.Manager.Slices.{Heap, Slice, Watcher, disable_http2, get_certificate, nil_slice, append}
use korder.Manager.Setup.{
  Flags, Host, SetupCall, new_cert_watcher, State, at, Result, running, exited, panicked, Run, pure,
  ◌>>=◌, ◌>>◌, call_or, attempt, push, when,
}
use korder.Manager.Plan.{only, on_failure, follow}
use korder.Manager.Options.{tls_options, watch_certs}

-- The second part of a plan, where the first has not ended the program.
abbrev next :
    Result (Unit {0}) × List SetupCall
    → (List SetupCall → Result (Unit {0}) × List SetupCall)
    → Result (Unit {0}) × List SetupCall
next (running u, made) k = k made
next (exited n, made) k = (exited n, made)
next (panicked, made) k = (panicked, made)

next_failure :
    (c : SetupCall) (made : List SetupCall)
    (k : List SetupCall → Result (Unit {0}) × List SetupCall)
    → next (on_failure c, made) k ≡ (on_failure c, made)
next_failure c made k = grind arith

module _ (host : Host) where
  follow-append :
      (xs ys made : List SetupCall)
      → follow host (xs ++ ys) made ≡ next (follow host xs made) (follow host ys)
  unfolding follow
  follow-append [] ys made = refl
  follow-append (c ∷ cs) ys made = elim (Bool-cases (host.fails made c)) [
    | inl e ↦ rw (follow, e, next_failure c (c ∷ made) (follow host ys)) refl
    | inr e ↦ rw (follow, e) (follow-append cs ys (c ∷ made))
  ]

  -- The run has the result and the calls, and the heap where it goes on.
  abbrev pub Ends : Result (Unit {0}) × State → Result (Unit {0}) × List SetupCall → Heap → Type 0
  Ends ran wanted h = ((ran.0, ran.1.calls) ≡ wanted) × (ran.0 ≡ running tt → ran.1.heap ≡ h)

  -- From the heap on, the run follows the plan, and leaves the second heap where it goes on.
  pub record Follows (h : Heap) (m : Run (Unit {0})) (cs : List SetupCall) (h' : Heap)
      : Type 0 where
    pub run : (made : List SetupCall) → Ends (m (at h made)) (follow host cs made) h'

  pub Follows-attempt :
      (h : Heap) (c : SetupCall) → Follows h (call_or host (on_failure c) c) (c ∷ []) h
  unfolding follow
  Follows-attempt h c = record {
    run = λ made. elim (Bool-cases (host.fails made c)) [
      | inl e ↦ (rw (follow, e) refl, λ r. refl)
      | inr e ↦ (rw (follow, e) refl, λ r. refl)
    ];
  }

  pub Follows-when :
      (h : Heap) (b : Bool) (c : SetupCall)
      → Follows h (when b (call_or host (on_failure c) c)) (only b c) h
  unfolding follow
  Follows-when h true c = Follows-attempt h c
  Follows-when h false c = record { run = λ made. (refl, λ r. refl) }

  then_lem :
      (h1 h2 : Heap) (k : Run (Unit {0})) (xs ys made : List SetupCall) (r : Result (Unit {0}))
      (s : State)
      → Follows h1 k ys h2
      → (r, s.calls) ≡ follow host xs made
      → (r ≡ running tt → s.heap ≡ h1)
      → let ran : Result (Unit {0}) × State = elim r [
        | running u ↦ k s
        | exited n ↦ (exited n, s)
        | panicked ↦ (panicked, s)
      ] in
        ((ran.0, ran.1.calls) ≡ follow host (xs ++ ys) made)
        × (ran.0 ≡ running tt → ran.1.heap ≡ h2)
  then_lem h1 h2 k xs ys made (running u) s rest e kept =
      let same : s ≡ at h1 s.calls = ground (arith, kept refl) in
      rw (same, follow-append xs ys made, ← e) (rest.run s.calls)
  then_lem h1 h2 k xs ys made (exited n) s rest e kept =
      (rw (follow-append xs ys made, ← e) refl, λ r. cc)
  then_lem h1 h2 k xs ys made panicked s rest e kept =
      (rw (follow-append xs ys made, ← e) refl, λ r. cc)

  pub Follows-then :
      {h h1 h2 : Heap} {m k : Run (Unit {0})} {xs ys : List SetupCall}
      → Follows h m xs h1
      → Follows h1 k ys h2
      → Follows h (m >> k) (xs ++ ys) h2
  Follows-then {h} {h1} {h2} {m} {k} {xs} {ys} first rest = record {
    run = λ made.
        then_lem h1 h2 k xs ys made (m (at h made)).0 (m (at h made)).1 rest (first.run made).0
          (first.run made).1;
  }

  -- Options that are appended where a path is given.
  abbrev pub watched : Watcher → Text → Slice → Heap → Slice × Heap
  watched w path opts h =
      if not (is_empty path) then append host.capacity opts (get_certificate w) h else (opts, h)

  after_call :
      (h h2 : Heap) (c : SetupCall)
      → on_failure c ≡ exited 1
      → (m : Run Slice) (k : Slice → Run (Unit {0})) (cs : List SetupCall)
      → Follows h (m >>= k) cs h2
      → Follows h (attempt host c >> m >>= k) (c ∷ cs) h2
  unfolding follow
  after_call h h2 c exits m k cs rest = record {
    run = λ made.
        elim (host.fails made c)
          as (λ b.
            let step : Run (Unit {0}) = λ s.
              (elim b [ true ↦ exited 1 | false ↦ running tt ], record s { calls = c ∷ s.calls }) in
            Ends ((step >> m >>= k) (at h made))
              (elim b [ true ↦ (on_failure c, c ∷ made) | false ↦ follow host cs (c ∷ made) ]) h2) [
                | true ↦ (rw exits refl, λ r. cc)
                | false ↦ rest.run (c ∷ made)
              ];
  }

  pub Follows-watch_certs :
      (h h2 : Heap) (opts : Slice) (w : Watcher) (path name key : Text) (k : Slice → Run (Unit {0}))
      (cs : List SetupCall)
      → Follows (watched w path opts h).1 (k (watched w path opts h).0) cs h2
      → Follows h
          (watch_certs host w path name key opts >>= k)
          (only
              (not (is_empty path))
              (new_cert_watcher (host.join_paths path name) (host.join_paths path key))
            ++ cs)
          h2
  unfolding watch_certs follow
  Follows-watch_certs h h2 opts w [] name key k cs rest = record { run = rest.run }
  Follows-watch_certs h h2 opts w (c ∷ path) name key k cs rest =
      after_call h h2
        (new_cert_watcher (host.join_paths (c ∷ path) name) (host.join_paths (c ∷ path) key)) refl
        (push host opts (get_certificate w)) k cs (record { run = rest.run })

  -- The options of TLS, and the heap with them.
  abbrev pub tls_at : Bool → Heap → Slice × Heap
  tls_at http2 h = if http2 then (nil_slice, h) else append host.capacity nil_slice disable_http2 h

  pub Follows-tls_options :
      (h h2 : Heap) (flags : Flags) (k : Slice → Run (Unit {0})) (cs : List SetupCall)
      → Follows (tls_at flags.enable_http2 h).1 (k (tls_at flags.enable_http2 h).0) cs h2
      → Follows h (tls_options host flags >>= k) cs h2
  unfolding tls_options
  Follows-tls_options h h2 flags k cs rest =
      (elim flags.enable_http2
          as (λ b.
            Follows (tls_at b h).1 (k (tls_at b h).0) cs h2
            → Follows h ((if b then pure nil_slice else push host nil_slice disable_http2) >>= k) cs
                h2) [ true ↦ λ r. r | false ↦ λ r. record { run = r.run } ])
        rest
