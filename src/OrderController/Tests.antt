-- ===== src/OrderController/Tests.antt =====
-- Runs of the order controller, and the theorems at concrete inputs.
use korder.Prelude.{
  ◌≡◌, refl, true, false, none, some, List, [], ◌∷◌, ◌++◌, arith, allb, anyb, is_some, map,
}
use mathlib.Core.List.{reverse}
use korder.Prelude.Int.{pos, wrap32, ◌-ℤ◌, ◌+ℤ◌}
use korder.Prelude.Text.{codes, text_eq}
use korder.Prelude.Decimal.{print_ℕ, print_ℤ}
use korder.Api.Meta.{Key, ObjectMeta}
use korder.Api.Ticket.{Ticket, TicketPhase}
use korder.Api.Order.{Order, RefreshPolicy}
use korder.Client.{
  Cluster, Call, Trace, ok, err, already_exists, calls, delete_ticket, list_tickets, update_order,
}
use korder.Client.Sample.{sample_server, ticket_in, order_with}
use korder.OrderController.Tickets.{
  order_finalizer, owner_labels, filter_active, ticket_name, ticket_of, create_tickets,
  create_ticket, owned_tickets,
}
use korder.OrderController.Balance.{reconcile_tickets, five_minutes, balance}
use korder.OrderController.Reconcile.{reconcile, handle_deletion, delete_owned, delete_all}
use korder.OrderController.Create.{created, reconcile_tickets-fills, reconcile_tickets-collides}
use korder.OrderController.Remove.{reconcile_tickets-trims, handle_deletion-deletes_all, all_taken}
use korder.OrderController.Policy.{may_delete, reconcile_tickets-allowed}
use korder.OrderController.Returns.{ListsAreShort, reconcile_stays_in_slices}

abbrev key : Key
key = record { namespace = codes "prod"; name = codes "web" }

abbrev web_0 : Ticket
web_0 = ticket_in TicketPhase.ready (codes "web-0")

abbrev web_1 : Ticket
web_1 = ticket_in TicketPhase.claimed (codes "web-1")

abbrev web_2 : Ticket
web_2 = ticket_in TicketPhase.expired (codes "web-2")

abbrev always_one : Order
always_one = order_with RefreshPolicy.always (some (pos 1))

abbrev always_three : Order
always_three = order_with RefreshPolicy.always (some (pos 3))

abbrev has_tickets : List Ticket → Cluster
has_tickets ts = record sample_server { tickets_at = λ tr ns ls. ok ts }

has_tickets-KeepsName :
    (ts : List Ticket) (owner m m' : ObjectMeta)
    → (has_tickets ts).set_controller_reference owner m ≡ ok m'
    → m'.name ≡ m.name
has_tickets-KeepsName ts owner m m' h = ground arith

reconcile_tickets-fills_example :
    created (calls (reconcile_tickets (has_tickets (web_0 ∷ [])) always_three []))
    ≡ ticket_name always_three (pos 2) ∷ ticket_name always_three (pos 1) ∷ []
unfolding filter_active reconcile_tickets owned_tickets balance create_tickets create_ticket wrap32
    ◌-ℤ◌ ◌+ℤ◌
reconcile_tickets-fills_example =
    reconcile_tickets-fills (has_tickets (web_0 ∷ [])) always_three (web_0 ∷ []) [] 3 five_minutes
      (has_tickets-KeepsName (web_0 ∷ [])) refl refl (omega arith) (omega arith) refl

-- The first ticket is gone, and the next one would get the name of the second.
abbrev collision_server : Cluster
collision_server = record sample_server {
  tickets_at = λ tr ns ls. ok (web_1 ∷ []);
  write_error = λ tr c. elim c [
    | Call.create_ticket t ↦ elim (anyb (λ u. text_eq u.meta.name t.meta.name) (web_1 ∷ [])) [
      | true ↦ some (already_exists t.meta.name)
      | false ↦ none
    ]
    | _ ↦ none
  ];
}

collision_server-refuses :
    (tr : Trace) (t : Ticket)
    → anyb (λ u. text_eq u.meta.name t.meta.name) (web_1 ∷ []) ≡ true
    → collision_server.write_error tr (Call.create_ticket t) ≡ some (already_exists t.meta.name)
unfolding text_eq
collision_server-refuses tr t h = rw h

reconcile_tickets-collides_example :
    ((reconcile_tickets collision_server always_three []).0
      ≡ some (err (already_exists (ticket_name always_three (pos 1)))))
    × (created (calls (reconcile_tickets collision_server always_three []))
        ≡ ticket_name always_three (pos 1) ∷ [])
unfolding ticket_of ticket_name print_ℕ print_ℤ text_eq
reconcile_tickets-collides_example =
    reconcile_tickets-collides collision_server always_three (web_1 ∷ []) [] 3 _ refl refl
      (omega arith) (omega arith) refl refl refl collision_server-refuses

reconcile_tickets-trims_example :
    reconcile_tickets (has_tickets (web_0 ∷ web_2 ∷ web_1 ∷ [])) always_one [] ≡ (
      some (ok five_minutes),
      delete_ticket web_1 ∷ list_tickets (codes "prod") (owner_labels always_one) ∷ [],
    )
unfolding filter_active
reconcile_tickets-trims_example =
    reconcile_tickets-trims (has_tickets (web_0 ∷ web_2 ∷ web_1 ∷ [])) always_one
      (web_0 ∷ web_2 ∷ web_1 ∷ []) (web_0 ∷ []) (web_1 ∷ []) [] (λ tr t. refl) refl refl refl refl
      (omega arith) (omega arith)

handle_deletion-deletes_all_example :
    (calls (handle_deletion (has_tickets (web_0 ∷ web_1 ∷ [])) always_one [])
      ≡ update_order (record always_one {
        meta = sample_server.remove_finalizer always_one.meta order_finalizer;
      })
        ∷ (map delete_ticket (reverse (web_0 ∷ web_1 ∷ []))
            ++ list_tickets (codes "prod") (owner_labels always_one) ∷ []))
    × (all_taken
          (has_tickets (web_0 ∷ web_1 ∷ []))
          (web_0 ∷ web_1 ∷ [])
          (list_tickets (codes "prod") (owner_labels always_one) ∷ [])
        ≡ true)
unfolding handle_deletion delete_owned delete_all owned_tickets
handle_deletion-deletes_all_example =
    handle_deletion-deletes_all (has_tickets (web_0 ∷ web_1 ∷ [])) always_one (web_0 ∷ web_1 ∷ [])
      [] refl refl

reconcile_tickets-allowed_example :
    allb
      (may_delete RefreshPolicy.always)
      (calls (reconcile_tickets (has_tickets (web_0 ∷ web_1 ∷ [])) always_one []))
    ≡ true
reconcile_tickets-allowed_example =
    reconcile_tickets-allowed (has_tickets (web_0 ∷ web_1 ∷ [])) always_one [] refl

abbrev paused_order : Order
paused_order = record always_three { spec = record always_three.spec { paused = some true } }

abbrev paused_server : Cluster
paused_server = record sample_server { order_at = λ tr k. ok paused_order }

abbrev found_server : Cluster
found_server = record sample_server {
  order_at = λ tr k. ok always_one;
  tickets_at = λ tr ns ls. ok (web_0 ∷ web_1 ∷ []);
}

ok-injective {ℓ} : {A : Type ℓ} (a b : A) → ok a ≡ ok b → a ≡ b
ok-injective a b h = cc

found_server-ListsAreShort : ListsAreShort found_server
unfolding filter_active
found_server-ListsAreShort tr ns ls ts h =
    rw (← ok-injective (web_0 ∷ web_1 ∷ []) ts h) (omega arith)

reconcile_stays_in_slices_example : is_some (reconcile found_server key []).0 ≡ true
reconcile_stays_in_slices_example =
    reconcile_stays_in_slices found_server key always_one [] 1 found_server-ListsAreShort refl refl
