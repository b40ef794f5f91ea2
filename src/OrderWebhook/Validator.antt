-- ===== src/OrderWebhook/Validator.antt =====
-- internal/webhook/v1alpha1/order_webhook.go: OrderCustomValidator: creation, update and deletion.
use korder.Prelude.{ℕ, none, some, List, [], ◌∷◌, ◌++◌, if◌then◌else◌, ltb, countb}
use korder.Prelude.Text.{Text, codes}
use korder.Prelude.Decimal.{print_ℕ}
use korder.Api.Ticket.{Ticket, is_ready, is_claimed}
use korder.Api.Order.{Order}
use korder.Client.{Cluster, ok, err, M, pure, ◌>>=◌, find_tickets}
use korder.TicketWebhook.Spec.{Verdict, accept, reject, prefixed}
use korder.OrderWebhook.Spec.{validate_spec, validate_immutable}
use korder.OrderWebhook.Quotas.{resource_requests, validate_against_quotas, validate_growth}

-- OrderCustomValidator.ValidateCreate, with validateQuotaCompliance. The warnings are returned only
-- with an error.
unfoldable pub validate_create : Cluster → Order → M Verdict
unfolding resource_requests validate_against_quotas validate_spec
validate_create env order = do
  failure ← validate_against_quotas env order.meta.namespace (resource_requests env order)
  elim failure [
    | some e ↦ pure (reject [] (prefixed (codes "quota validation failed: ") e))
    | none ↦
        let v = validate_spec env order in
        elim v.error [
          | some e ↦
              pure
                (reject v.warnings (prefixed (codes "order specification validation failed: ") e))
          | none ↦ pure (accept [])
        ]
  ]

-- OrderCustomValidator.ValidateUpdate. The warnings of a check that passes are dropped.
unfoldable pub validate_update : Cluster → Order → Order → M Verdict
unfolding validate_immutable validate_growth
validate_update env old new =
    let first = validate_immutable old new in
    elim first.error [
      | some e ↦
          pure (reject first.warnings (prefixed (codes "immutable field validation failed: ") e))
      | none ↦ do
        failure ← validate_growth env old new
        elim failure [
          | some e ↦ pure (reject [] (prefixed (codes "quota validation failed: ") e))
          | none ↦ pure (accept [])
        ]
    ]

unfoldable pub count_warnings : ℕ → Text → List Text
count_warnings n what =
    if ltb 0 n
    then (codes "Order has " ++ print_ℕ n ++ what ++ codes " tickets that will be deleted") ∷ []
    else []

-- validateOrderDeletion, which ValidateDelete returns
unfoldable pub validate_delete : Cluster → Order → M Verdict
unfolding count_warnings
validate_delete env order = do
  listed ← find_tickets env order.meta.namespace ((codes "korder.dev/order", order.meta.name) ∷ [])
  elim listed [
    | err e ↦ pure (reject [] (prefixed (codes "failed to list tickets: ") e))
    | ok tickets ↦
        let ready = countb (λ (t : Ticket). is_ready t.status.phase) tickets in
        let claimed = countb (λ (t : Ticket). is_claimed t.status.phase) tickets in
        pure (
          accept (
            count_warnings ready (codes " active (reserved)")
            ++ count_warnings claimed (codes " claimed")))
  ]
