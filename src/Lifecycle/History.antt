-- ===== src/Lifecycle/History.antt =====
-- What the server stores of a ticket, and the steps that change it.
use korder.Prelude.{ℕ, ◌≡◌, Bool, true, ◌&&◌, none, some, [], ◌∷◌, if◌then◌else◌}
use korder.Prelude.Text.{Text, text_eq}
use korder.Api.Meta.{ObjectMeta, Pod, key_of}
use korder.Api.Ticket.{Ticket, TicketSpec}
use korder.Client.{Cluster, Call, Trace, ok}
use korder.PodWebhook.Find.{ticket_request, at_key}
use korder.PodWebhook.Choose.{find_available}
use korder.PodWebhook.Defaulter.{default}
use korder.TicketController.Reconcile.{reconcile}

abbrev pub same_key : ObjectMeta → ObjectMeta → Bool
same_key a b = text_eq a.namespace b.namespace && text_eq a.name b.name

-- The ticket after a write that the server has accepted: the status has an endpoint of its own.
abbrev pub applied : Call → Ticket → Ticket
applied (Call.update_ticket_status u) t =
    if same_key u.meta t.meta then record t { status = u.status } else t
applied (Call.update_ticket u) t =
    if same_key u.meta t.meta then record t { meta = u.meta; spec = u.spec } else t
applied _ t = t

-- The ticket after the calls of a run that started with it.
unfoldable pub stored : Cluster → Ticket → Trace → Ticket
stored env t [] = t
stored env t (c ∷ tr) =
    let before = stored env t tr in
    elim (env.write_error tr c) [ some e ↦ before | none ↦ applied c before ]

abbrev pub request_of : Pod → Text
request_of pod = at_key ticket_request pod.meta.annotations

-- What the pod webhook reads of the ticket is what is stored.
abbrev pub IsFresh : Cluster → Pod → Ticket → Type 0
IsFresh env pod t =
    (u : Ticket)
    → (find_available env pod (request_of pod) []).0 ≡ some (ok (some u))
    → same_key u.meta t.meta ≡ true
    → u ≡ t

-- A reconciliation that has read the ticket, the mutation of some pod, or a change of the metadata
-- and the specification by somebody else.
pub data Step : Ticket → Ticket → Type 0 where
  reconciles :
      {t : Ticket} (env : Cluster) (fuel : ℕ)
      → env.ticket_at [] (key_of t.meta) ≡ ok t
      → Step t (stored env t (reconcile env fuel (key_of t.meta) []).1)
  binds :
      {t : Ticket} (env : Cluster) (pod : Pod)
      → IsFresh env pod t
      → Step t (stored env t (default env pod []).1)
  edits :
      {t : Ticket} (meta : ObjectMeta) (spec : TicketSpec)
      → Step t (record t { meta = meta; spec = spec })

pub data History (t : Ticket) : Ticket → Type 0 where
  start : History t t
  extend : {u w : Ticket} → History t u → Step u w → History t w
