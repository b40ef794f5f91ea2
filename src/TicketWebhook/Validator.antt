-- ===== src/TicketWebhook/Validator.antt =====
-- internal/webhook/v1alpha1/ticket_webhook.go: TicketCustomValidator: creation, update and
-- deletion.
use korder.Prelude.{Option, none, some, List, [], ◌∷◌, ◌++◌, if◌then◌else◌}
use korder.Prelude.Text.{Text, codes}
use korder.Api.Ticket.{Ticket, is_claimed}
use korder.Client.{Cluster, M, pure, ◌>>=◌}
use korder.TicketWebhook.Spec.{Verdict, accept, reject, prefixed, validate_spec, validate_immutable}
use korder.TicketWebhook.Quotas.{resource_requests, validate_against_quotas}

-- TicketCustomValidator.ValidateCreate, with validateTicketQuotaCompliance
unfoldable pub validate_create : Cluster → Ticket → M Verdict
validate_create env t = do
  v ← validate_spec env t
  elim v.error [
    | some e ↦
        pure (reject v.warnings (prefixed (codes "ticket specification validation failed: ") e))
    | none ↦ do
      failure ← validate_against_quotas env t.meta.namespace (resource_requests env t)
      elim failure [
        | some e ↦ pure (reject v.warnings (prefixed (codes "quota validation failed: ") e))
        | none ↦ pure (accept v.warnings)
      ]
  ]

-- TicketCustomValidator.ValidateUpdate
validate_update : Cluster → Ticket → Ticket → M Verdict
validate_update env old new =
    let first = validate_immutable env old new in
    elim first.error [
      | some e ↦
          pure (reject first.warnings (prefixed (codes "immutable field validation failed: ") e))
      | none ↦ do
        v ← validate_spec env new
        elim v.error [
          | some e ↦ pure (
              reject (first.warnings ++ v.warnings)
                (prefixed (codes "ticket specification validation failed: ") e))
          | none ↦ pure (accept (first.warnings ++ v.warnings))
        ]
    ]

guardian_warnings : Option Text → List Text
guardian_warnings none = []
guardian_warnings (some pod) = (codes "Guardian pod " ++ pod ++ codes " will be deleted") ∷ []

-- TicketCustomValidator.ValidateDelete
validate_delete : Ticket → Verdict
unfolding guardian_warnings
validate_delete t = accept (
    (if is_claimed t.status.phase
      then codes "Deleting a claimed ticket may affect running pods" ∷ []
      else [])
    ++ guardian_warnings t.status.guardian_pod)
