-- ===== src/PodWebhook/Bind.antt =====
-- What the defaulter makes of a pod, and what it tells the server.
use korder.Prelude.{
  ◌≡◌, refl, ap, subst, true, false, ◌||◌, Option, none, some, List, ◌∷◌, ◌++◌, arith,
  if◌then◌else◌, is_some, is_empty, ◌⊎◌, inl, inr, Option-cases, Bool-cases,
}
use korder.Prelude.Text.{Text, codes, text_eq, lookup, insert, lookup-insert}
use korder.Api.Meta.{Pod, Time}
use korder.Api.Ticket.{Ticket, TicketPhase}
use korder.Client.{
  Cluster, ok, err, Reply, Reply-cases, Trace, read_clock, update_ticket_status, calls,
}
use korder.PodWebhook.Find.{
  ticket_request, ticket_claimed, ticket_node, at_key, get_specific_ticket, find_by_selector,
  find_by_group, find_by_request,
}
use korder.PodWebhook.Choose.{select_best, find_available}
use korder.PodWebhook.Defaulter.{is_guardian, bound, claimed_by, bind_pod, default}
use korder.PodWebhook.Select.{IsChoice, select_best-IsChoice}

find_by_request_returns :
    (env : Cluster) (pod : Pod) (request : Text) (tr : Trace)
    → (r : Reply (List Ticket)) × ((find_by_request env pod request tr).0 ≡ some r)
unfolding find_by_request get_specific_ticket find_by_selector find_by_group
find_by_request_returns env pod request tr =
    elim (Option-cases (find_by_request env pod request tr).0) [
      | inr (r, h) ↦ (r, h)
      | inl never ↦ absurd (ground arith)
    ]

-- A ticket that is chosen has a node.
select_best_node :
    (pod : Pod) (ts : List Ticket) (t : Ticket)
    → select_best pod ts ≡ some t
    → is_some t.status.node_name ≡ true
select_best_node pod ts t h =
    let best = subst (IsChoice pod ts) h (select_best-IsChoice pod ts) in
    let available = best.0 in ground arith

find_available_cases :
    (env : Cluster) (pod : Pod) (request : Text) (tr : Trace)
    → (r : Reply (Option Ticket)) × ((find_available env pod request tr).0 ≡ some r)
      × ((t : Ticket) → r ≡ ok (some t) → is_some t.status.node_name ≡ true)
unfolding find_available
find_available_cases env pod request tr =
    let (r, found) = find_by_request_returns env pod request tr in
    elim (Reply-cases r) [
      | inr (e, bad) ↦ (err e, ground arith, λ t h. cc)
      | inl (ts, good) ↦
          (ok (select_best pod ts), ground arith, λ t h. select_best_node pod ts t (ground arith))
    ]

abbrev pub request_of : Pod → Text
request_of pod = at_key ticket_request pod.meta.annotations

pub default-writes :
    (env : Cluster) (pod : Pod) (tr tr' : Trace) (t : Ticket) (node : Text)
    → is_guardian pod ≡ false
    → is_empty (at_key ticket_request pod.meta.annotations) ≡ false
    → find_available env pod (at_key ticket_request pod.meta.annotations) tr
      ≡ (some (ok (some t)), tr')
    → t.status.node_name ≡ some node
    → default env pod tr ≡ (
      some (bound pod t node, none),
      update_ticket_status (claimed_by pod t (env.now tr')) ∷ read_clock ∷ tr',
    )
unfolding default bind_pod
default-writes env pod tr tr' t node plain asked found scheduled = ground arith

-- The pod with the node as its own and the two annotations of the ticket, and all else as it was.
abbrev pub IsBound : Pod → Ticket → Text → Pod → Type 0
IsBound pod t node p =
    (p ≡ record pod {
      spec = record pod.spec { node_name = node };
      meta = record pod.meta { annotations = p.meta.annotations };
    })
    × ((key : Text)
        → lookup key p.meta.annotations ≡ (
            if text_eq (codes "korder.dev/ticket-claimed") key
            then some t.meta.name
            else if text_eq (codes "korder.dev/ticket-node") key
            then some node
            else lookup key pod.meta.annotations))

-- The ticket in the phase Claimed, held by the pod since a time, and all else as it was.
abbrev pub IsClaimed : Pod → Ticket → Time → Ticket → Type 0
IsClaimed pod t at_time w = w ≡ record t {
  status = record t.status {
    phase = TicketPhase.claimed;
    claimed_time = some at_time;
    claimed_pod = some (pod.meta.namespace ++ b'/' ∷ pod.meta.name);
  };
}

-- What the defaulter makes of the pod, and its calls, behind a search with a result.
abbrev pub AfterSearch : Cluster → Pod → Trace → Pod → Trace → Reply (Option Ticket) → Type 0
AfterSearch env pod searched p after (err e) = (p ≡ pod) × (after ≡ searched)
AfterSearch env pod searched p after (ok none) = (p ≡ pod) × (after ≡ searched)
AfterSearch env pod searched p after (ok (some t)) =
    (node : Text) × (w : Ticket) × (t.status.node_name ≡ some node)
    × IsBound pod t node p
    × IsClaimed pod t (env.now searched) w
    × (after ≡ update_ticket_status w ∷ read_clock ∷ searched)

bound-IsBound : (pod : Pod) (t : Ticket) (node : Text) → IsBound pod t node (bound pod t node)
unfolding bound
bound-IsBound pod t node = (
  refl,
  λ key.
      rw
        (
          lookup-insert ticket_claimed key t.meta.name
              (insert ticket_node node pod.meta.annotations),
          lookup-insert ticket_node key node pod.meta.annotations,
        )
        refl,
)

claimed_by-IsClaimed :
    (pod : Pod) (t : Ticket) (at_time : Time) → IsClaimed pod t at_time (claimed_by pod t at_time)
unfolding claimed_by
claimed_by-IsClaimed pod t at_time = refl

-- A pod that asks for a ticket and is no guardian is given back without an error, whatever the
-- search results in. Where it fails or finds no ticket, the pod is as it was and nothing is written.
-- Where it finds one, the ticket has a node, the pod gets that node, the annotations of the ticket's
-- name and of the node, and no other change, and one write follows the search and the reading of the
-- clock: the ticket as claimed at that time by the pod, and unchanged else. The pod is bound also
-- where the server refuses that write.
pub default-binds :
    (env : Cluster) (pod : Pod) (tr searched : Trace) (r : Reply (Option Ticket))
    → is_guardian pod ≡ false
    → is_empty (request_of pod) ≡ false
    → find_available env pod (request_of pod) tr ≡ (some r, searched)
    → (p : Pod) × ((default env pod tr).0 ≡ some (p, none))
      × AfterSearch env pod searched p (calls (default env pod tr)) r
unfolding default
default-binds env pod tr searched (err e) plain asked found =
    (pod, ground arith, (refl, ground arith))
default-binds env pod tr searched (ok none) plain asked found =
    (pod, ground arith, (refl, ground arith))
default-binds env pod tr searched (ok (some t)) plain asked found =
    let (r, result, safe) = find_available_cases env pod (request_of pod) tr in
    elim (Option-cases t.status.node_name) [
      | inl no_node ↦ absurd (ground (arith, safe t))
      | inr (node, scheduled) ↦
          let writes = default-writes env pod tr searched t node plain asked found scheduled in
          (
            bound pod t node,
            ap (λ m. m.0) writes,
            (
              node,
              claimed_by pod t (env.now searched),
              scheduled,
              bound-IsBound pod t node,
              claimed_by-IsClaimed pod t (env.now searched),
              ap calls writes,
            ),
          )
    ]

-- The pod is as it was, or bound to a ticket that was found for it.
abbrev pub IsAsked : Cluster → Pod → Trace → Pod → Type 0
IsAsked env pod tr p =
    (p ≡ pod)
    ⊎ ((t : Ticket) × (node : Text) × ((find_available env pod (request_of pod) tr).0
          ≡ some (ok (some t)))
        × (t.status.node_name ≡ some node)
        × (p ≡ bound pod t node))

-- The defaulter returns without an error, whatever the server answers, so it rejects no pod and
-- never reads a node that is not there; the pod is as it was, or it is bound to the ticket that was
-- found, at that ticket's node.
pub default-never_fails :
    (env : Cluster) (pod : Pod) (tr : Trace)
    → (p : Pod) × ((default env pod tr).0 ≡ some (p, none)) × IsAsked env pod tr p
unfolding default bind_pod
default-never_fails env pod tr =
    let request = request_of pod in
    let (r, found, safe) = find_available_cases env pod request tr in
    elim (Bool-cases (is_guardian pod || is_empty request)) [
      | inl skipped ↦ (pod, ground arith, inl refl)
      | inr asked ↦ elim (Reply-cases r) [
        | inr (e, bad) ↦ (pod, ground arith, inl refl)
        | inl (choice, good) ↦ elim (Option-cases choice) [
          | inl nothing ↦ (pod, ground arith, inl refl)
          | inr (t, chosen) ↦ elim (Option-cases t.status.node_name) [
            | inl no_node ↦ absurd (ground (arith, safe t))
            | inr (node, scheduled) ↦
                (bound pod t node, ground arith, inr (t, node, ground arith, scheduled, refl))
          ]
        ]
      ]
    ]
