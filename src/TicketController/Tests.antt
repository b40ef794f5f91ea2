-- ===== src/TicketController/Tests.antt =====
-- Runs of the ticket controller, and the theorems at concrete inputs.
use korder.Prelude.{◌≡◌, refl, true, false, none, some, [], ◌∷◌, arith, anyb, allb, is_some}
use korder.Prelude.Int.{pos, scale, ◌+ℤ◌}
use korder.Prelude.Text.{codes}
use korder.Prelude.Strings.{split}
use korder.Api.Meta.{Key}
use korder.Api.Ticket.{Ticket, TicketPhase, TicketLifecycle, CleanupPolicy}
use korder.Client.{Cluster, ok, err, already_exists, calls, create_pod, read_clock}
use korder.Client.Sample.{sample_server, ticket_in}
use korder.TicketController.Write.{parse_key, poll}
use korder.TicketController.Guardian.{guardian_pod_of}
use korder.TicketController.Activate.{handle_pending}
use korder.TicketController.Retire.{handle_expired}
use korder.TicketController.Reconcile.{reconcile}
use korder.TicketController.Cleanup.{handle_expired-never_deletes, deletes_ticket}
use korder.TicketController.Phases.{follows, reconcile-follows}
use korder.TicketController.Recreate.{NamesGuardian, IsCoherent}
use korder.TicketController.Recreate.Returns.{reconcile_returns}
use korder.TicketController.Recreate.Stale.{handle_pending_diverges}
use korder.TicketController.Recreate.Forgets.{handle_pending-forgets}

abbrev key : Key
key = record { namespace = codes "prod"; name = codes "t1" }

abbrev guardian : Key
guardian = record { namespace = codes "prod"; name = codes "korder-guardian-t1" }

abbrev held_ticket : Ticket
held_ticket =
    let t = ticket_in TicketPhase.ready (codes "t1") in
    record t { status = record t.status { guardian_pod = some (codes "prod/korder-guardian-t1") } }

abbrev one_hour : TicketLifecycle
one_hour = record {
  ttl_seconds_after_finished = some (pos 3600);
  cleanup_policy = CleanupPolicy.delete;
}

abbrev expired_ticket : Ticket
expired_ticket =
    let t = ticket_in TicketPhase.expired (codes "t1") in
    record t { spec = record t.spec { lifecycle = some one_hour } }

handle_expired-never_deletes_example :
    anyb deletes_ticket (calls (handle_expired sample_server expired_ticket [])) ≡ false
unfolding ◌+ℤ◌ scale
handle_expired-never_deletes_example =
    handle_expired-never_deletes sample_server expired_ticket [] refl refl (λ tr. omega arith)

abbrev has_held : Cluster
has_held = record sample_server { ticket_at = λ tr k. ok held_ticket }

reconcile-follows_example :
    allb (follows TicketPhase.ready) (calls (reconcile has_held 3 key [])) ≡ true
reconcile-follows_example = reconcile-follows has_held 3 key held_ticket [] refl refl

has_held-IsCoherent : IsCoherent has_held
has_held-IsCoherent = record {
  seen = λ tr p h. cc;
  same_key = λ owner m m' h. ground arith;
  owner_error = λ owner m e h. cc;
}

some-injective {ℓ} : {A : Type ℓ} (a b : A) → some a ≡ some b → a ≡ b
some-injective a b h = cc

held_ticket-NamesGuardian : NamesGuardian held_ticket
unfolding parse_key split
held_ticket-NamesGuardian name h = rw (← some-injective (codes "prod/korder-guardian-t1") name h)

reconcile_returns_example : is_some (reconcile has_held 3 key []).0 ≡ true
reconcile_returns_example =
    reconcile_returns has_held 0 key held_ticket [] has_held-IsCoherent refl
      held_ticket-NamesGuardian

abbrev stale_server : Cluster
stale_server = record sample_server { created_pod = λ tr p. err (already_exists p.meta.name) }

handle_pending_diverges_example : (handle_pending stale_server 1000 held_ticket []).0 ≡ none
handle_pending_diverges_example =
    handle_pending_diverges stale_server 1000 held_ticket []
      (record {
        missing = λ tr k. refl;
        exists = λ tr p. refl;
        owns = λ owner m. (record m { owner_references = owner.uid ∷ [] }, refl);
      })
      refl refl

handle_pending-forgets_example :
    handle_pending stale_server 2 (ticket_in TicketPhase.pending (codes "t1")) [] ≡ (
      some (record { outcome = poll; error = none }),
      create_pod
            (record (guardian_pod_of stale_server (ticket_in TicketPhase.pending (codes "t1"))) {
              meta =
                  record (guardian_pod_of stale_server
                    (ticket_in TicketPhase.pending (codes "t1"))).meta {
                      owner_references = codes "7" ∷ [];
                    };
            })
          ∷ read_clock
          ∷ [],
    )
handle_pending-forgets_example =
    handle_pending-forgets stale_server 0 (ticket_in TicketPhase.pending (codes "t1")) [] _ refl
      refl refl refl
