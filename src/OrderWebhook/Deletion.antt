-- ===== src/OrderWebhook/Deletion.antt =====
-- What the validator says of the deletion of an order.
use korder.Prelude.{
  ◌≡◌, Bool, not, ◌&&◌, ◌++◌, refl, none, some, List, [], ◌∷◌, arith, countb, allb, is_empty, ℕ,
  ◌==◌,
}
use korder.Prelude.Text.{Text, codes}
use korder.Api.Meta.{Labels}
use korder.Api.Ticket.{Ticket, is_ready, is_claimed}
use korder.Api.Order.{Order}
use korder.Client.{Cluster, Trace, ok, list_tickets}
use korder.TicketWebhook.Spec.{Verdict, accept}
use korder.OrderWebhook.Validator.{validate_delete, count_warnings}

-- The ticket holds no node for a pod.
abbrev pub is_idle : Ticket → Bool
is_idle t = not (is_ready t.status.phase) && not (is_claimed t.status.phase)

countb_idle :
    (tickets : List Ticket)
    → allb is_idle tickets ≡ (
        (countb (λ (t : Ticket). is_ready t.status.phase) tickets == 0)
        && (countb (λ (t : Ticket). is_claimed t.status.phase) tickets == 0))
countb_idle [] = ground arith
countb_idle (t ∷ ts) = ground (arith, countb_idle ts)

is_empty-count_warnings : (n : ℕ) (what : Text) → is_empty (count_warnings n what) ≡ (n == 0)
unfolding count_warnings
is_empty-count_warnings n what = ground arith

is_empty-append : (xs ys : List Text) → is_empty (xs ++ ys) ≡ (is_empty xs && is_empty ys)
is_empty-append [] ys = refl
is_empty-append (x ∷ xs) ys = refl

abbrev pub by_order : Order → Labels
by_order order = (codes "korder.dev/order", order.meta.name) ∷ []

-- A deletion is never refused once the tickets of the order are listed, by its label and in its
-- namespace, and it is without a warning exactly when none of them is ready or claimed.
pub validate_delete-warns :
    (env : Cluster) (order : Order) (tickets : List Ticket) (tr : Trace)
    → env.tickets_at tr order.meta.namespace (by_order order) ≡ ok tickets
    → (v : Verdict) × (validate_delete env order tr
        ≡ (some v, list_tickets order.meta.namespace (by_order order) ∷ tr))
      × (v.error ≡ none)
      × (is_empty v.warnings ≡ allb is_idle tickets)
unfolding validate_delete
validate_delete-warns env order tickets tr listed =
    let ready = countb (λ (t : Ticket). is_ready t.status.phase) tickets in
    let claimed = countb (λ (t : Ticket). is_claimed t.status.phase) tickets in
    let a = count_warnings ready (codes " active (reserved)") in
    let b = count_warnings claimed (codes " claimed") in
    (
      accept (a ++ b),
      ground arith,
      refl,
      ground (
        arith,
        is_empty-append a b,
        is_empty-count_warnings ready (codes " active (reserved)"),
        is_empty-count_warnings claimed (codes " claimed"),
        countb_idle tickets,
      ),
    )
