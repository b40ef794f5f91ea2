-- ===== src/PodWebhook/Validate.antt =====
-- The validation of the ticket annotations, beside the defaulter that has written them.
use korder.Prelude.{
  ◌≡◌, refl, ap, ◌∙◌, true, false, none, some, List, [], ◌∷◌, ◌++◌, arith, anyb, is_empty, inl, inr,
  Option-cases,
}
use korder.Prelude.Text.{Text, codes, text_eq, insert, lookup-insert, text_eq_refl}
use korder.Prelude.Strings.{cut_prefix, trim_space, trim_space-sane, NoSpace}
use korder.Api.Meta.{Pod, Time}
use korder.Api.Ticket.{Ticket}
use korder.Client.{Cluster, Error, Call, ok, err, Trace, get_ticket, list_tickets, calls}
use korder.PodWebhook.Find.{
  ticket_request, ticket_claimed, ticket_node, at_key, is_available, get_specific_ticket,
  find_by_group, find_by_request,
}
use korder.PodWebhook.Choose.{select_from, select_best, find_available}
use korder.PodWebhook.Defaulter.{is_guardian, bound, claimed_by, default}
use korder.PodWebhook.Validator.{
  validate_request, validate_claimed, validate_annotations, validate_create,
}
use korder.PodWebhook.Selector.{validate_selector-finds}
use korder.PodWebhook.Bind.{default-writes}

-- A pod that is not a guardian and that claims a ticket is created only if its request found tickets
-- and one of them has the claimed name.
pub validate_create-claims_found :
    (env : Cluster) (pod : Pod) (tr : Trace)
    → is_guardian pod ≡ false
    → is_empty (at_key ticket_claimed pod.meta.annotations) ≡ false
    → (validate_create env pod tr).0 ≡ some none
    → (ts : List Ticket) × ((find_by_request env pod
          (at_key ticket_request pod.meta.annotations)
          tr).0
        ≡ some (ok ts))
      × (anyb (λ t. text_eq t.meta.name (at_key ticket_claimed pod.meta.annotations)) ts ≡ true)
unfolding validate_create validate_annotations validate_claimed
validate_create-claims_found env pod tr plain claims accepted =
    let request = at_key ticket_request pod.meta.annotations in
    elim (Option-cases (find_by_request env pod request tr).0) [
      | inl never ↦ absurd (ground arith)
      | inr (err e, bad) ↦ absurd (ground arith)
      | inr (ok ts, good) ↦ (ts, good, ground arith)
    ]

-- A request that validateTicketRequest accepts is one that the search can use: it asks the server
-- once, for the ticket or for a list.
pub validate_request-asks :
    (env : Cluster) (pod : Pod) (request : Text) (tr : Trace)
    → validate_request request ≡ none
    → (c : Call) × (calls (find_by_request env pod request tr) ≡ c ∷ tr)
unfolding validate_request find_by_request get_specific_ticket find_by_group
validate_request-asks env pod request tr valid =
    let ns = pod.meta.namespace in
    elim (Option-cases (cut_prefix (codes "name:") request)) [
      | inr (name, cut) ↦
          (get_ticket (record { namespace = ns; name = trim_space name }), ground arith)
      | inl not_name ↦ elim (Option-cases (cut_prefix (codes "selector:") request)) [
        | inr (selector, cut) ↦
            let (labels, full, asks) =
              validate_selector-finds env pod (trim_space selector) tr (ground arith) in
            (list_tickets ns labels, ground arith)
        | inl not_selector ↦ elim (Option-cases (cut_prefix (codes "group:") request)) [
          | inr (group, cut) ↦ (list_tickets ns [], ground arith)
          | inl not_group ↦ (get_ticket (record { namespace = ns; name = request }), ground arith)
        ]
      ]
    ]

module _ (env : Cluster) (pod : Pod) (name : Text) (clean : NoSpace name)
    (ne : is_empty name ≡ false) where
  find_by_name :
      (tr : Trace) (t : Ticket)
      → env.ticket_at tr (record { namespace = pod.meta.namespace; name = name }) ≡ ok t
      → is_available t ≡ true
      → find_by_request env pod (codes "name:" ++ name) tr ≡ (
        some (ok (t ∷ [])),
        get_ticket (record { namespace = pod.meta.namespace; name = name }) ∷ tr,
      )
  unfolding find_by_request get_specific_ticket cut_prefix
  find_by_name tr t found available = ground (arith, trim_space-sane name clean)

  find_by_name_closed :
      (tr : Trace) (t : Ticket)
      → env.ticket_at tr (record { namespace = pod.meta.namespace; name = name }) ≡ ok t
      → is_available t ≡ false
      → (e : Error) × ((find_by_request env pod (codes "name:" ++ name) tr).0 ≡ some (err e))
  unfolding find_by_request get_specific_ticket cut_prefix
  find_by_name_closed tr t found closed =
      elim (Option-cases (find_by_request env pod (codes "name:" ++ name) tr).0) [
        | inl never ↦ absurd (ground (arith, trim_space-sane name clean))
        | inr (ok ts, good) ↦ absurd (ground (arith, trim_space-sane name clean))
        | inr (err e, bad) ↦ (e, bad)
      ]

module _ (pod : Pod) (t : Ticket) (node : Text) where
  bound-claimed : at_key ticket_claimed (bound pod t node).meta.annotations ≡ t.meta.name
  unfolding bound
  bound-claimed =
      rw
        (lookup-insert ticket_claimed ticket_claimed t.meta.name
          (insert ticket_node node pod.meta.annotations))
        (rw (text_eq_refl ticket_claimed))

  bound-request :
      at_key ticket_request (bound pod t node).meta.annotations
      ≡ at_key ticket_request pod.meta.annotations
  unfolding bound
  bound-request =
      rw
        (lookup-insert ticket_claimed ticket_request t.meta.name
          (insert ticket_node node pod.meta.annotations))
        (rw (lookup-insert ticket_node ticket_request node pod.meta.annotations)
          (unfold text_eq in refl))

  bound-guardian : is_guardian (bound pod t node) ≡ is_guardian pod
  unfolding is_guardian bound
  bound-guardian = refl

  bound-namespace : (bound pod t node).meta.namespace ≡ pod.meta.namespace
  unfolding bound
  bound-namespace = refl

claimed_by_closed :
    (pod : Pod) (t : Ticket) (at_time : Time) → is_available (claimed_by pod t at_time) ≡ false
unfolding claimed_by
claimed_by_closed pod t at_time = refl

select_best_only :
    (pod : Pod) (t : Ticket) → is_available t ≡ true → select_best pod (t ∷ []) ≡ some t
unfolding select_best select_from
select_best_only pod t h = ground arith

validate_request_name :
    (name : Text)
    → NoSpace name
    → is_empty name ≡ false
    → validate_request (codes "name:" ++ name) ≡ none
unfolding validate_request cut_prefix
validate_request_name name clean ne = ground (arith, trim_space-sane name clean)

validate_create_closed :
    (env : Cluster) (p : Pod) (name : Text) (tr : Trace) (t : Ticket)
    → NoSpace name
    → is_empty name ≡ false
    → is_guardian p ≡ false
    → at_key ticket_request p.meta.annotations ≡ codes "name:" ++ name
    → is_empty (at_key ticket_claimed p.meta.annotations) ≡ false
    → env.ticket_at tr (record { namespace = p.meta.namespace; name = name }) ≡ ok t
    → is_available t ≡ false
    → (e : Error) × ((validate_create env p tr).0 ≡ some (some e))
unfolding validate_create validate_annotations validate_claimed
validate_create_closed env p name tr t clean ne plain asks claims found closed =
    let (e, bad) = find_by_name_closed env p name clean ne tr t found closed in
    (e, ground (arith, validate_request_name name clean ne))

find_available_name :
    (env : Cluster) (pod : Pod) (name : Text) (tr : Trace) (t : Ticket)
    → NoSpace name
    → is_empty name ≡ false
    → env.ticket_at tr (record { namespace = pod.meta.namespace; name = name }) ≡ ok t
    → is_available t ≡ true
    → find_available env pod (codes "name:" ++ name) tr ≡ (
      some (ok (some t)),
      get_ticket (record { namespace = pod.meta.namespace; name = name }) ∷ tr,
    )
unfolding find_available
find_available_name env pod name tr t clean ne found available = ground (
  arith,
  find_by_name env pod name clean ne tr t found available,
  select_best_only pod t available,
)

-- The defaulter's own work makes the validator reject the pod: a pod that asks for an available
-- ticket by name is bound to it, and if the server then shows the ticket as the defaulter has written
-- it, claimed by the pod, the creation of the bound pod is refused with an error.
pub validate_create-rejects_bound :
    (env : Cluster) (pod : Pod) (name node : Text) (tr : Trace) (t : Ticket)
    → NoSpace name
    → is_empty name ≡ false
    → is_empty t.meta.name ≡ false
    → is_guardian pod ≡ false
    → at_key ticket_request pod.meta.annotations ≡ codes "name:" ++ name
    → env.ticket_at tr (record { namespace = pod.meta.namespace; name = name }) ≡ ok t
    → is_available t ≡ true
    → t.status.node_name ≡ some node
    → (at_time : Time)
    → env.ticket_at
        (calls (default env pod tr))
        (record { namespace = pod.meta.namespace; name = name })
      ≡ ok (claimed_by pod t at_time)
    → ((default env pod tr).0 ≡ some (bound pod t node, none))
      × (e : Error) × ((validate_create env (bound pod t node) (calls (default env pod tr))).0
          ≡ some (some e))
validate_create-rejects_bound env pod name node tr t clean ne named plain asks found available
      scheduled at_time shown =
    let p = bound pod t node in
    let searched = get_ticket (record { namespace = pod.meta.namespace; name = name }) ∷ tr in
    let binds =
      default-writes env pod tr searched t node plain (ground arith)
        (rw asks (find_available_name env pod name tr t clean ne found available)) scheduled in
    let (e, refused) =
      validate_create_closed env p name (calls (default env pod tr)) (claimed_by pod t at_time)
        clean ne (bound-guardian pod t node ∙ plain) (bound-request pod t node ∙ asks)
        (rw (bound-claimed pod t node) named) (rw (bound-namespace pod t node) shown)
        (claimed_by_closed pod t at_time) in
    (ap (λ r. r.0) binds, e, refused)
