-- ===== src/TicketWebhook/Quotas.antt =====
-- internal/webhook/v1alpha1/ticket_webhook.go: validateAgainstQuotas, with the requests of a
-- ticket.
use korder.Prelude.{
  Bool, true, false, Option, none, some, List, [], ◌∷◌, ◌++◌, if◌then◌else◌, get_or, anyb,
}
use korder.Prelude.Int.{pos}
use korder.Prelude.Text.{Text, codes, text_eq, lookup, insert}
use korder.Api.Meta.{Quantity, ResourceList}
use korder.Api.Ticket.{Ticket}
use korder.Api.Quota.{Quota, QuotaScopeType}
use korder.Client.{Cluster, Error, other, ok, err, M, pure, ◌>>=◌, find_quotas}
use korder.TicketWebhook.Resources.{first_error_in, either_error}

reserve : ResourceList → ResourceList → ResourceList
reserve [] into = into
reserve ((name, q) ∷ rs) into = reserve rs (insert (codes "reserved." ++ name) q into)

-- calculateTicketResourceRequests
pub resource_requests : Cluster → Ticket → ResourceList
resource_requests env t =
    let tickets = (codes "tickets", env.new_quantity (pos 1)) ∷ [] in
    elim t.spec.resources [ none ↦ tickets | some r ↦ reserve (get_or r.requests []) tickets ]

-- doesQuotaApply
pub quota_applies : Quota → Text → Bool
quota_applies quota ns = elim quota.spec.scope.kind [
  | QuotaScopeType.cluster ↦ true
  | QuotaScopeType.namespace_list ↦ anyb (λ n. text_eq n ns) quota.spec.scope.namespaces
  | _ ↦ false
]

unfoldable pub above_quota : Cluster → ResourceList → Text × Quantity → Option Error
above_quota env hard (name, q) = elim (lookup name hard) [
  | none ↦ none
  | some limit ↦
      if env.exceeds q limit
      then some (
          other (
            codes "ticket request for "
            ++ name
            ++ codes " ("
            ++ env.print_quantity q
            ++ codes ") exceeds quota limit ("
            ++ env.print_quantity limit
            ++ codes ")"))
      else none
]

-- The loop of validateAgainstQuotas.
unfoldable pub check_quotas : Cluster → Text → ResourceList → List Quota → Option Error
check_quotas env ns requests [] = none
check_quotas env ns requests (quota ∷ quotas) =
    let rest = check_quotas env ns requests quotas in
    if quota_applies quota ns
    then either_error (first_error_in (above_quota env (get_or quota.spec.hard [])) requests) rest
    else rest

-- validateAgainstQuotas
unfoldable pub validate_against_quotas : Cluster → Text → ResourceList → M (Option Error)
validate_against_quotas env ns requests = do
  listed ← find_quotas env
  elim listed [ err e ↦ pure (some e) | ok quotas ↦ pure (check_quotas env ns requests quotas) ]
