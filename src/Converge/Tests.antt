-- ===== src/Converge/Tests.antt =====
-- The theorem on two runs of reconcileTickets, on a server that keeps a list of tickets.
use korder.Prelude.{
  true, ◌||◌, ◌&&◌, ltb, ◌≤◌, ◌≡◌, refl, Bool, false, not, none, some, List, [], ◌∷◌, arith, countb,
  filterb, anyb, map, inl, inr, if◌then◌else◌, Bool-cases,
}
use korder.Api.Meta.{ObjectMeta}
use korder.Prelude.Int.{ℤ, pos, wrap32, ◌-ℤ◌}
use korder.Prelude.Decimal.{print_ℤ}
use korder.Prelude.Text.{Text, codes, text_eq, text_eq_iff}
use korder.Api.Ticket.{Ticket, TicketPhase}
use korder.Api.Order.{Order, RefreshPolicy}
use korder.Client.{Cluster, Trace, Call, ok, already_exists, list_tickets, calls}
use korder.Client.Sample.{sample_server, order_with, ticket_in}
use korder.OrderController.Tickets.{
  owner_labels, owned_tickets, is_active, create_ticket, create_tickets, ticket_of, ticket_name,
  filter_active,
}
use korder.OrderController.Balance.{balance, reconcile_tickets, five_minutes}
use korder.Converge.Store.{has_name, is_foreign, has_finalizer, IsStore}
use korder.Converge.Settles.{reconcile_tickets-settles}

abbrev two : Order
two = order_with RefreshPolicy.always (some (pos 2))

-- The ticket of a name, with the time of its deletion.
mark : Text → Ticket → Ticket
mark name u =
    if has_name name u
    then record u { meta = record u.meta { deletion_timestamp = some (pos 100) } }
    else u

effect : Call → List Ticket → List Ticket
effect (Call.create_ticket t) ts =
    if is_foreign two t || anyb (has_name t.meta.name) ts then ts else t ∷ ts
effect (Call.delete_ticket t) ts =
    if ltb 0 (countb (λ u. has_name t.meta.name u && has_finalizer u) ts)
    then map (mark t.meta.name) ts
    else filterb (λ u. not (has_name t.meta.name u)) ts
effect _ ts = ts

-- A ticket that the ticket controller has seen.
abbrev guarded : Ticket
guarded =
    let t = ticket_in TicketPhase.ready (codes "web-0") in
    record t { meta = record t.meta { finalizers = codes "korder.dev/ticket-finalizer" ∷ [] } }

-- One ticket at first.
holds : Trace → List Ticket
unfolding effect
holds [] = guarded ∷ []
holds (c ∷ tr) = effect c (holds tr)

abbrev refuses : List Ticket → Call → Bool
refuses ts (Call.create_ticket t) = anyb (has_name t.meta.name) ts
refuses ts _ = false

abbrev storing : Cluster
storing = record sample_server {
  tickets_at = λ tr ns ls. ok (holds tr);
  write_error = λ tr c. if refuses (holds tr) c then some (already_exists []) else none;
}

unused :
    (name : Text) (ts : List Ticket)
    → anyb (has_name name) ts ≡ false
    → countb (has_name name) ts ≡ 0
unused name [] free = refl
unused name (t ∷ ts) free = ground (arith, unused name ts)

countb-without-le : (p q : Ticket → Bool) (ts : List Ticket) → countb p (filterb q ts) ≤ countb p ts
countb-without-le p q [] = omega arith
countb-without-le p q (t ∷ ts) = ground (arith, countb-without-le p q ts)

module _ (p : Ticket → Bool) (ignores : (name : Text) (u : Ticket) → p (mark name u) ≡ p u) where
  countb-marked : (name : Text) (ts : List Ticket) → countb p (map (mark name) ts) ≡ countb p ts
  countb-marked name [] = refl
  countb-marked name (t ∷ ts) = ground (arith, ignores name t, countb-marked name ts)

  countb-deleted :
      (t : Ticket) (ts : List Ticket) → countb p (effect (Call.delete_ticket t) ts) ≤ countb p ts
  unfolding effect
  countb-deleted t ts = ground (
    arith,
    countb-marked t.meta.name ts,
    countb-without-le p (λ u. not (has_name t.meta.name u)) ts,
  )

mark-name : (j name : Text) (u : Ticket) → has_name j (mark name u) ≡ has_name j u
unfolding mark
mark-name j name u = ground arith

mark-foreign : (name : Text) (u : Ticket) → is_foreign two (mark name u) ≡ is_foreign two u
unfolding mark
mark-foreign name u = ground arith

effect-once :
    (c : Call) (ts : List Ticket) (name : Text)
    → countb (has_name name) ts ≤ 1
    → countb (has_name name) (effect c ts) ≤ 1
unfolding effect
effect-once (Call.create_ticket t) ts name once =
    elim (Bool-cases (anyb (has_name t.meta.name) ts)) [
      | inl taken ↦ ground (arith, taken)
      | inr free ↦ ground (arith, free, text_eq_iff t.meta.name name, unused t.meta.name ts free)
    ]
effect-once (Call.delete_ticket t) ts name once =
    omega (arith, countb-deleted (has_name name) (mark-name name) t ts)
effect-once _ ts name once = once

effect-foreign :
    (c : Call) (ts : List Ticket)
    → countb (is_foreign two) ts ≡ 0
    → countb (is_foreign two) (effect c ts) ≡ 0
unfolding effect
effect-foreign (Call.create_ticket t) ts ours = ground arith
effect-foreign (Call.delete_ticket t) ts ours =
    omega (arith, countb-deleted (is_foreign two) mark-foreign t ts)
effect-foreign _ ts ours = ours

holds-foreign : (tr : Trace) → countb (is_foreign two) (holds tr) ≡ 0
unfolding holds text_eq
holds-foreign [] = refl
holds-foreign (c ∷ tr) = effect-foreign c (holds tr) (holds-foreign tr)

holds-once : (tr : Trace) (name : Text) → countb (has_name name) (holds tr) ≤ 1
unfolding holds
holds-once [] name = ground arith
holds-once (c ∷ tr) name = effect-once c (holds tr) name (holds-once tr name)

own_namespace :
    (index : ℤ) (m : ObjectMeta)
    → storing.set_controller_reference two.meta (ticket_of two index).meta ≡ ok m
    → text_eq m.namespace two.meta.namespace ≡ true
unfolding ticket_of
own_namespace index m owned = ground (arith, owned, text_eq_iff m.namespace two.meta.namespace)

storing-IsStore : IsStore storing two holds
unfolding holds
storing-IsStore = record {
  held-create = λ tr index m owned free. (
    record (ticket_of two index) { meta = m },
    ground (arith, free, own_namespace index m owned),
    refl,
  );
  held-delete = λ tr t own free works. ground (arith, free);
  held-list = λ tr. refl;
  lists = λ tr. (holds tr, refl, λ p. refl);
  none_foreign = holds-foreign;
  names_once = holds-once;
}

reconcile_tickets-settles_example :
    let tr' = calls (reconcile_tickets storing two []) in
    (countb is_active (holds tr') ≡ 2)
    × (reconcile_tickets storing two tr'
        ≡ (some (ok five_minutes), list_tickets two.meta.namespace (owner_labels two) ∷ tr'))
unfolding holds reconcile_tickets owned_tickets balance wrap32 filter_active create_tickets ◌-ℤ◌
    create_ticket text_eq ticket_of ticket_name print_ℤ
reconcile_tickets-settles_example =
    reconcile_tickets-settles storing two holds storing-IsStore [] 2 five_minutes refl
      (inl (omega arith)) (omega arith) refl
