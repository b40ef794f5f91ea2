-- ===== src/Manager/Tests.antt =====
-- The theorems on the start at concrete inputs.
use mathlib.Core.List.{reverse_aux}
use korder.Prelude.{ℕ, ◌≡◌, refl, true, false, none, [], ◌++◌}
use korder.Prelude.Text.{codes, text_eq}
use korder.Manager.Slices.{webhook_certs, metrics_certs, Heap}
use korder.Manager.Setup.{Flags, Options, Host, State, at, default_flags}
use korder.Manager.Options.{manager_options, tls_options, watch_certs}
use korder.Manager.Start.{program, main, init, register_all, start}
use korder.Manager.Plan.{planned, follow}
use korder.Manager.Started.{AreFlagged, program-planned}
use korder.Manager.Tls.{Serve, wanted, program-Serve}

-- A host on which every call succeeds, with the capacity of a first array.
abbrev sample_host : ℕ → Host
sample_host room = record {
  enable_webhooks = [];
  join_paths = λ p q. p ++ (codes "/" ++ q);
  capacity = λ c n. room;
  fails = λ made c. false;
}

abbrev secured : Flags
secured = record default_flags { webhook_cert_path = codes "/w"; metrics_cert_path = codes "/m" }

abbrev empty_heap : Heap
empty_heap = record { next = 1; cell = λ a i. none }

-- The state in which the program ends.
abbrev ended : Host → Flags → State
ended host flags = (program host flags (at empty_heap [])).1

program-planned_example :
    (o : Options) × AreFlagged secured o
    × ((
      (program (sample_host 1) secured (at empty_heap [])).0,
      (program (sample_host 1) secured (at empty_heap [])).1.calls,
    )
        ≡ follow (sample_host 1) (planned (sample_host 1) secured true o) [])
unfolding text_eq
program-planned_example = program-planned (sample_host 1) secured empty_heap

program-Serve_example :
    (o : Options) × ((ended (sample_host 1) secured).calls
      ≡ reverse_aux (planned (sample_host 1) secured true o) [])
    × Serve
        (ended (sample_host 1) secured).heap
        o
        (wanted false (codes "/w") webhook_certs)
        (wanted false (codes "/m") metrics_certs)
unfolding text_eq program main init manager_options tls_options watch_certs register_all start
program-Serve_example =
    program-Serve (sample_host 1) secured empty_heap (ended (sample_host 1) secured) refl refl
