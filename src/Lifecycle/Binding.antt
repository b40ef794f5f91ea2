-- ===== src/Lifecycle/Binding.antt =====
-- What the pod webhook leaves of a ticket.
use korder.Prelude.{
  ◌≡◌, ◌∙◌, ap, sym, subst, ◌⊎◌, inl, inr, true, ◌||◌, none, some, [], ◌∷◌, arith, Bool-cases,
  Option-cases, is_empty,
}
use korder.Prelude.Text.{Text}
use korder.Api.Meta.{Pod, Time}
use korder.Api.Ticket.{Ticket, TicketPhase, TicketStatus}
use korder.Client.{Cluster, Trace, ok, err, read_clock, update_ticket_status}
use korder.PodWebhook.Find.{
  find_by_request, get_specific_ticket, find_by_selector, find_by_group, is_available,
}
use korder.PodWebhook.Choose.{find_available, select_best}
use korder.PodWebhook.Defaulter.{is_guardian, bind_pod, claimed_by, default}
use korder.PodWebhook.Select.{IsChoice, select_best-IsChoice}
use korder.Lifecycle.History.{stored, request_of, same_key, IsFresh}

stored-find_available :
    (env : Cluster) (t : Ticket) (pod : Pod) (request : Text) (tr : Trace)
    → stored env t (find_available env pod request tr).1 ≡ stored env t tr
unfolding stored find_available find_by_request get_specific_ticket find_by_selector find_by_group
stored-find_available env t pod request tr = ground arith

find_available-is_available :
    (env : Cluster) (pod : Pod) (request : Text) (tr : Trace) (u : Ticket)
    → (find_available env pod request tr).0 ≡ some (ok (some u))
    → is_available u ≡ true
unfolding find_available
find_available-is_available env pod request tr u found =
    elim (Option-cases (find_by_request env pod request tr).0) [
      | inl never ↦ absurd (ground arith)
      | inr (err e, failed) ↦ absurd (ground arith)
      | inr (ok ts, listed) ↦
          let chosen : select_best pod ts ≡ some u = ground arith in
          let best = subst (IsChoice pod ts) chosen (select_best-IsChoice pod ts) in best.0
    ]

-- The ticket was ready and is claimed by a pod.
abbrev pub IsClaim : Ticket → Ticket → Type 0
IsClaim t s =
    (t.status.phase ≡ TicketPhase.ready)
    × (s.status.phase ≡ TicketPhase.claimed)
    × (holder : Text) × (s.status.claimed_pod ≡ some holder)

stored-IsClaim :
    (env : Cluster) (pod : Pod) (t u : Ticket) (at_time : Time) (tr : Trace)
    → stored env t tr ≡ t
    → (same_key u.meta t.meta ≡ true → u ≡ t)
    → is_available u ≡ true
    → let s = stored env t (update_ticket_status (claimed_by pod u at_time) ∷ read_clock ∷ tr) in
      (s ≡ t) ⊎ (IsClaim t s)
unfolding stored claimed_by
stored-IsClaim env pod t u at_time tr before fresh available =
    let c = update_ticket_status (claimed_by pod u at_time) in
    let s = stored env t (c ∷ read_clock ∷ tr) in
    let read : stored env t (read_clock ∷ tr) ≡ t = ground arith in
    elim (Option-cases (env.write_error (read_clock ∷ tr) c)) [
      | inr (e, refused) ↦ inl (ground arith)
      | inl accepted ↦ elim (Bool-cases (same_key u.meta t.meta)) [
        | inr another ↦ inl (ground arith)
        | inl this ↦
            let status : s.status ≡ (claimed_by pod u at_time).status = ground arith in
            let ready : u.status.phase ≡ TicketPhase.ready = ground arith in
            inr (
              ap (λ (x : Ticket). x.status.phase) (sym (fresh this)) ∙ ready,
              ap (λ (x : TicketStatus). x.phase) status,
              _,
              ap (λ (x : TicketStatus). x.claimed_pod) status,
            )
      ]
    ]

pub default_claims :
    (env : Cluster) (pod : Pod) (t : Ticket)
    → IsFresh env pod t
    → (stored env t (default env pod []).1 ≡ t) ⊎ (IsClaim t (stored env t (default env pod []).1))
unfolding default bind_pod stored
default_claims env pod t fresh =
    let request = request_of pod in
    let tr = (find_available env pod request []).1 in
    let same = stored-find_available env t pod request [] in
    let unchanged : (default env pod []).1 ≡ tr
        → (stored env t (default env pod []).1 ≡ t)
          ⊎ IsClaim t (stored env t (default env pod []).1) =
      λ calls. inl (ap (stored env t) calls ∙ same) in
    elim (Bool-cases (is_guardian pod || is_empty request)) [
      | inl skipped ↦
          let calls : (default env pod []).1 ≡ [] = ground arith in inl (ap (stored env t) calls)
      | inr asked ↦ elim (Option-cases (find_available env pod request []).0) [
        | inl never ↦ unchanged (ground arith)
        | inr (err e, failed) ↦ unchanged (ground arith)
        | inr (ok none, nothing) ↦ unchanged (ground arith)
        | inr (ok (some u), found) ↦ elim (Option-cases u.status.node_name) [
          | inl no_node ↦ unchanged (ground arith)
          | inr (node, placed) ↦
              let at_time = env.now tr in
              let claimed_calls =
                update_ticket_status (claimed_by pod u at_time) ∷ read_clock ∷ tr in
              let calls : (default env pod []).1 ≡ claimed_calls = ground arith in
              let available = find_available-is_available env pod request [] u found in
              subst (λ c. (stored env t c ≡ t) ⊎ IsClaim t (stored env t c)) (sym calls)
                (stored-IsClaim env pod t u at_time tr same (fresh u found) available)
        ]
      ]
    ]
