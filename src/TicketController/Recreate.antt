-- ===== src/TicketController/Recreate.antt =====
-- The loop between handlePendingTicket and handleReadyTicket: when it ends, and what it leaves
-- undone.
pub mod Returns
pub mod Stale
pub mod Forgets
use korder.Prelude.{
  ℕ, zero, suc, ◌+◌, ◌≡◌, refl, Bool, true, false, Option, none, some, List, [], ◌∷◌, ◌++◌, arith,
  is_some, ◌⊎◌, inl, inr, Option-cases, Bool-cases, sym, ◌∙◌, ◌≢◌,
}
use korder.Prelude.Text.{Text, codes}
use korder.Prelude.Int.{ℤ, ◌+ℤ◌}
use korder.Prelude.Strings.{split, Lacks, split-append, split-Lacks}
use korder.Api.Meta.{ObjectMeta, Key, Pod, Time, key_of}
use korder.Api.Ticket.{Ticket, TicketPhase, WindowSpec}
use korder.Client.{
  Cluster, Error, is_not_found, is_already_exists, Reply, ok, err, Reply-cases, Call, Trace, Return,
  M, read_clock, get_ticket, get_pod, create_pod, calls,
}
use korder.TicketController.Write.{join_key, parse_key, update_ticket_status, poll}
use korder.TicketController.Guardian.{
  guardian_pod_of, create_guardian_pod, delete_guardian_pod, handle_deletion,
}
use korder.TicketController.Activate.{
  with_activation, with_expiration, with_times, activated, pending_step, ready_step, handle_pending,
  handle_ready,
}
use korder.TicketController.Retire.{
  handle_claimed, handle_expired, handle_expiration, clean_up, retain_expired, delete_after,
  delete_ticket_now,
}
use korder.TicketController.Reconcile.{is_ticket_expired, by_phase, reconcile_found, reconcile}

-- A namespace and a name without a slash are read back from the reference that they make.
pub parse_key-join_key :
    (ns name : Text)
    → Lacks b'/' ns
    → Lacks b'/' name
    → parse_key (join_key ns name) ≡ some (record { namespace = ns; name = name })
unfolding parse_key
parse_key-join_key ns name h k = rw (split-append b'/' ns name h) (rw (split-Lacks b'/' name k))

abbrev pub guardian_key : Ticket → Key
guardian_key t = record {
  namespace = t.meta.namespace;
  name = codes "korder-guardian-" ++ t.meta.name;
}

-- A reference to a guardian pod, if the ticket has one, names the pod that the ticket creates.
abbrev pub NamesGuardian : Ticket → Type 0
NamesGuardian t =
    (name : Text) → t.status.guardian_pod ≡ some name → parse_key name ≡ some (guardian_key t)

abbrev pub says_exists : Reply Pod → Bool
says_exists (ok p) = false
says_exists (err e) = is_already_exists e

abbrev pub says_missing : Reply Pod → Bool
says_missing (ok p) = false
says_missing (err e) = is_not_found e

-- A pod whose creation was refused since it exists is found by the next read, setting the owner of
-- a pod does not rename it, and its errors are not the server's "already exists".
pub record IsCoherent (env : Cluster) : Type 0 where
  pub seen :
      (tr : Trace) (p : Pod)
      → says_exists (env.created_pod tr p) ≡ true
      → says_missing (env.pod_at (create_pod p ∷ tr) (key_of p.meta)) ≡ false
  pub same_key :
      (owner m m' : ObjectMeta)
      → env.set_controller_reference owner m ≡ ok m'
      → key_of m' ≡ key_of m
  pub owner_error :
      (owner m : ObjectMeta) (e : Error)
      → env.set_controller_reference owner m ≡ err e
      → is_already_exists e ≡ false

-- The ticket that handlePendingTicket goes on with is the ticket, but for its times.
pub record SameButTimes (t t' : Ticket) : Type 0 where
  pub meta : t'.meta ≡ t.meta
  pub guardian : t'.status.guardian_pod ≡ t.status.guardian_pod

module _ (env : Cluster) where
  pub with_times-same :
      (t : Ticket) (at_time : Time) {t' : Ticket}
      → with_times env t at_time ≡ ok t'
      → SameButTimes t t'
  unfolding with_times with_activation with_expiration
  with_times-same t at_time h = record { meta = ground arith; guardian = ground arith }
