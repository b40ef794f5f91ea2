-- ===== src/OrderWebhook/Defaults.antt =====
-- What the defaulter leaves of an order.
use korder.Prelude.{◌≡◌, refl, ap, ◌∙◌, none, some, List, [], ◌∷◌, arith, Option}
use korder.Prelude.Text.{Text, codes, text_eq, text_eq_iff, lookup, insert, lookup-insert}
use korder.Api.Meta.{Labels}
use korder.Api.Ticket.{TicketLifecycle, WindowSpec, TicketSpec}
use korder.Api.Order.{Order, RefreshPolicy}
use korder.OrderWebhook.Defaulter.{
  default_window, default_lifecycle, default_template, default_policy, default_labels, default,
}
use korder.TicketWebhook.Defaulter.{is_delete}

default_window_idem :
    (w : Option WindowSpec) → default_window (some (default_window w)) ≡ default_window w
unfolding default_window
default_window_idem none = refl
default_window_idem (some w) = ground arith

default_lifecycle_idem :
    (l : Option TicketLifecycle)
    → default_lifecycle (some (default_lifecycle l)) ≡ default_lifecycle l
unfolding default_lifecycle is_delete
default_lifecycle_idem l = ground arith

default_template_idem :
    (spec : TicketSpec) → default_template (default_template spec) ≡ default_template spec
unfolding default_template
default_template_idem spec =
    rw (default_window_idem spec.window, default_lifecycle_idem spec.lifecycle)

default_policy_idem : (p : RefreshPolicy) → default_policy (default_policy p) ≡ default_policy p
unfolding default_policy
default_policy_idem p = ground arith

insert_idem : (k v : Text) (m : List (Text × Text)) → lookup k m ≡ some v → insert k v m ≡ m
unfolding insert lookup
insert_idem k v [] h = cc
insert_idem k v ((j, w) ∷ m) h = ground (arith, insert_idem k v m, text_eq_iff j k)

lookup-default_labels :
    (name uid : Text) (labels : Labels)
    → (lookup (codes "korder.dev/order") (default_labels name uid labels) ≡ some name)
      × (lookup (codes "korder.dev/order-uid") (default_labels name uid labels) ≡ some uid)
unfolding default_labels text_eq
lookup-default_labels name uid labels =
    let inner = insert (codes "korder.dev/order") name labels in
    (
      lookup-insert (codes "korder.dev/order-uid") (codes "korder.dev/order") uid inner
          ∙ lookup-insert (codes "korder.dev/order") (codes "korder.dev/order") name labels,
      lookup-insert (codes "korder.dev/order-uid") (codes "korder.dev/order-uid") uid inner,
    )

default_labels_idem :
    (name uid : Text) (labels : Labels)
    → default_labels name uid (default_labels name uid labels) ≡ default_labels name uid labels
default_labels_idem name uid labels =
    let m = default_labels name uid labels in
    let (by_name, by_uid) = lookup-default_labels name uid labels in
    let named : default_labels name uid m ≡ insert (codes "korder.dev/order-uid") uid m =
      unfold default_labels in
      ap (insert (codes "korder.dev/order-uid") uid)
        (insert_idem (codes "korder.dev/order") name m by_name) in
    named ∙ insert_idem (codes "korder.dev/order-uid") uid m by_uid

-- The defaults are complete: an order that has them is left as it is.
pub default_idem : (order : Order) → default (default order) ≡ default order
unfolding default
default_idem order =
    let spec = order.spec in
    rw (
      default_template_idem spec.template.spec,
      default_policy_idem spec.refresh_policy,
      default_labels_idem order.meta.name order.meta.uid spec.template.meta.labels,
    )

-- The template of a defaulted order has the labels by which the tickets of the order are found.
pub default-labels :
    (order : Order)
    → (lookup (codes "korder.dev/order") (default order).spec.template.meta.labels
        ≡ some order.meta.name)
      × (lookup (codes "korder.dev/order-uid") (default order).spec.template.meta.labels
          ≡ some order.meta.uid)
unfolding default
default-labels order =
    lookup-default_labels order.meta.name order.meta.uid order.spec.template.meta.labels
