-- ===== src/Admitted/Refused.antt =====
-- An update of an order that the webhook of orders (internal/webhook/v1alpha1/order_webhook.go) lets
-- in, before the webhook of tickets (internal/webhook/v1alpha1/ticket_webhook.go), which sees the
-- tickets that the controller makes of the order.
use korder.Prelude.{
  ◌≡◌, true, false, none, some, [], ◌∷◌, arith, is_some, is_empty, get_or, inl, inr, Option-cases,
}
use korder.Prelude.Int.{ℤ, pos, ◌≤ℤ◌}
use korder.Prelude.Text.{Text}
use korder.Api.Meta.{ObjectMeta}
use korder.Api.Ticket.{Ticket, WindowSpec}
use korder.Api.Order.{Order}
use korder.Client.{Cluster, Error, err, Trace}
use korder.TicketWebhook.Defaulter.{default, initial_window, fill_window}
use korder.TicketWebhook.Spec.{Verdict, accept, check_duration, check_window, validate_spec}
use korder.TicketWebhook.Validator.{validate_create}
use korder.OrderController.Tickets.{ticket_of}
use korder.OrderWebhook.Validator.{validate_update}
use korder.OrderWebhook.Updates.{validate_update-shrinks}
use korder.OrderWebhook.Spec as of_order
use korder.Usage.Measure.{IsMeasured}

-- The text is not empty and is no duration.
abbrev pub IsMalformed : Cluster → Text → Type 0
IsMalformed env d = (is_empty d ≡ false) × (e : Error) × (env.parse_duration d ≡ err e)

module _ (env : Cluster) where
  check_duration-malformed : (d : Text) → IsMalformed env d → is_some (check_duration env d) ≡ true
  unfolding check_duration
  check_duration-malformed [] (long, e, bad) = absurd (ground arith)
  check_duration-malformed (c ∷ d) (long, e, bad) = ground arith

  order-malformed : (d : Text) → IsMalformed env d → is_some (of_order.check_duration env d) ≡ true
  unfolding of_order.check_duration
  order-malformed [] (long, e, bad) = absurd (ground arith)
  order-malformed (c ∷ d) (long, e, bad) = ground arith

  -- The defaulter keeps a duration that is not empty.
  default-duration :
      (t : Ticket) (w : WindowSpec) (tr : Trace)
      → t.spec.window ≡ some w
      → is_empty w.duration ≡ false
      → (t' : Ticket) × (w' : WindowSpec) × ((default env t tr).0 ≡ some t')
        × (t'.spec.window ≡ some w')
        × (w'.duration ≡ w.duration)
  unfolding default initial_window fill_window
  default-duration t w tr windowed long = elim (Option-cases (default env t tr).0) [
    | inl never ↦ absurd (ground arith)
    | inr (t', made) ↦ elim (Option-cases t'.spec.window) [
      | inl unset ↦ absurd (ground arith)
      | inr (w', filled) ↦ (t', w', made, filled, ground arith)
    ]
  ]

  validate_create-malformed :
      (t : Ticket) (w : WindowSpec) (tr : Trace)
      → t.spec.window ≡ some w
      → IsMalformed env w.duration
      → (v : Verdict) × ((validate_create env t tr).0 ≡ some v) × (is_some v.error ≡ true)
  unfolding validate_create validate_spec check_window
  validate_create-malformed t w tr windowed bad =
      elim (Option-cases (check_duration env w.duration)) [
        | inl fine ↦ absurd (ground (arith, check_duration-malformed w.duration bad))
        | inr (e, refused) ↦ elim (Option-cases (validate_create env t tr).0) [
          | inl never ↦ absurd (ground arith)
          | inr (v, made) ↦ (v, made, ground arith)
        ]
      ]

-- An order can be updated so that none of its new tickets is admitted: with a window whose duration
-- is set and is not read as one, no more replicas and a template without resources, the update is
-- accepted without a call, though the validation of the specification, which a creation goes
-- through, finds an error. Every ticket that the controller then builds from the order, whatever its
-- index and the metadata it gets, is completed by the defaulter of tickets and then refused by their
-- validator, at any time. Quantities follow the laws of `IsMeasured`.
pub validate_update-tickets_refused :
    (env : Cluster) (measured : IsMeasured env) (old new : Order) (w : WindowSpec) (index : ℤ)
    (m : ObjectMeta) (tr at_default at_validate : Trace)
    → get_or new.spec.replicas (pos 1) ≤ℤ get_or old.spec.replicas (pos 1)
    → new.spec.template.spec.resources ≡ none
    → new.spec.template.spec.window ≡ some w
    → IsMalformed env w.duration
    → (validate_update env old new tr ≡ (some (accept []), tr))
      × (is_some (of_order.validate_spec env new).error ≡ true)
      × ((t : Ticket) × (v : Verdict) × ((default env
              (record (ticket_of new index) { meta = m })
              at_default).0
            ≡ some t)
          × ((validate_create env t at_validate).0 ≡ some v)
          × (is_some v.error ≡ true))
unfolding of_order.validate_spec of_order.validate_template of_order.check_window ticket_of
validate_update-tickets_refused env measured old new w index m tr at_default at_validate fewer bare
      windowed bad =
    let made : Ticket = record (ticket_of new index) { meta = m } in
    let (t, w', completed, window, kept) = default-duration env made w at_default windowed bad.0 in
    let (v, checked, refused) =
      validate_create-malformed env t w' at_validate window (rw kept bad) in
    (
      validate_update-shrinks env measured old new tr fewer bare,
      ground (arith, order-malformed env w.duration bad),
      (t, v, completed, checked, refused),
    )
