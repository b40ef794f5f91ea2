-- ===== src/TicketController/Write.antt =====
-- internal/controller/ticket_controller.go: The status that updateTicketStatus writes, and the
-- keys of a guardian pod.
use korder.Prelude.{ℕ, ◌*◌, Option, none, some, List, [], ◌∷◌, ◌++◌}
use korder.Prelude.Int.{pos}
use korder.Prelude.Text.{Text, codes}
use korder.Prelude.Strings.{split}
use korder.Api.Meta.{Key, Time}
use korder.Api.Condition.{ConditionStatus, holds, fails, update_condition}
use korder.Api.Ticket.{Ticket, TicketPhase}
use korder.Client.{
  Cluster, Error, Call, M, ◌>>=◌, write, now, Outcome, done, after, Return, return_ok, return_err,
}

abbrev pub ticket_finalizer : Text
ticket_finalizer = codes "korder.dev/ticket-finalizer"

abbrev pub second_ns : ℕ
second_ns = 1000000000

-- namespace/name
abbrev pub join_key : Text → Text → Text
join_key ns name = ns ++ b'/' ∷ name

-- strings.Split(s, "/") into exactly two parts.
key_of_parts : List Text → Option Key
key_of_parts (ns ∷ name ∷ []) = some (record { namespace = ns; name = name })
key_of_parts _ = none

unfoldable pub parse_key : Text → Option Key
unfolding key_of_parts
parse_key s = key_of_parts (split b'/' s)

condition_of : TicketPhase → Text × ConditionStatus
condition_of TicketPhase.pending = (codes "Ready", fails)
condition_of TicketPhase.expired = (codes "Expiring", holds)
condition_of _ = (codes "Ready", holds)

-- The ticket that updateTicketStatus writes.
unfoldable pub with_status : Ticket → TicketPhase → Text → Text → Time → Ticket
unfolding condition_of
with_status t phase reason message at_time =
    let (kind, status) = condition_of phase in
    record t {
      status = record t.status {
        phase = phase;
        reason = some reason;
        message = some message;
        observed_generation = some t.meta.generation;
        conditions = update_condition kind status at_time reason message t.status.conditions;
      };
    }

-- A write whose error, if there is one, is returned.
abbrev pub finish : Outcome → Outcome → Option Error → M Return
finish good bad none = return_ok good
finish good bad (some e) = return_err bad e

-- updateTicketStatus
unfoldable pub update_ticket_status : Cluster → Ticket → TicketPhase → Text → Text → M Return
update_ticket_status env t phase reason message = do
  at_time ← now env
  failure ← write env (Call.update_ticket_status (with_status t phase reason message at_time))
  finish done done failure

abbrev pub poll : Outcome
poll = after (pos (30 * second_ns))
