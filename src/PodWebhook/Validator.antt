-- ===== src/PodWebhook/Validator.antt =====
-- internal/webhook/v1/pod_webhook.go: PodCustomValidator, which checks the annotations of a pod.
use korder.Prelude.{
  Bool, false, not, ◌&&◌, Option, none, some, List, [], ◌∷◌, ◌++◌, if◌then◌else◌, is_empty, allb,
  anyb,
}
use korder.Prelude.Text.{Text, codes, text_eq}
use korder.Prelude.Strings.{split, trim_space, cut_prefix}
use korder.Api.Meta.{Pod}
use korder.Client.{Cluster, Error, other, ok, err, M, pure, ◌>>=◌}
use korder.PodWebhook.Find.{ticket_request, ticket_claimed, at_key, find_by_request}
use korder.PodWebhook.Defaulter.{is_guardian}

unfoldable pub is_pair : List Text → Bool
is_pair (k ∷ v ∷ []) = not (is_empty (trim_space k)) && not (is_empty (trim_space v))
is_pair _ = false

-- validateSelectorFormat
unfoldable pub validate_selector : Text → Option Error
unfolding is_pair
validate_selector selector =
    if allb (λ p. is_pair (split b'=' (trim_space p))) (split b',' selector)
    then none
    else some (
        other (
          codes "invalid selector format: "
          ++ selector
          ++ codes " (expected key=value pairs separated by commas)"))

-- ValidateTicketRequest
unfoldable pub validate_request : Text → Option Error
validate_request request = elim (cut_prefix (codes "name:") request) [
  | some name ↦
      if is_empty (trim_space name)
      then some (other (codes "empty ticket name in 'name:' format"))
      else none
  | none ↦ elim (cut_prefix (codes "selector:") request) [
    | some selector ↦
        if is_empty (trim_space selector)
        then some (other (codes "empty selector in 'selector:' format"))
        else validate_selector (trim_space selector)
    | none ↦ elim (cut_prefix (codes "group:") request) [
      | some group ↦
          if is_empty (trim_space group)
          then some (other (codes "empty group name in 'group:' format"))
          else none
      | none ↦ none
    ]
  ]
]

-- ValidateClaimedTicketBelongsToRequest
unfoldable pub validate_claimed : Cluster → Pod → Text → Text → M (Option Error)
validate_claimed env pod claimed request = do
  found ← find_by_request env pod request
  elim found [
    | err e ↦ pure (some e)
    | ok ts ↦
        if anyb (λ t. text_eq t.meta.name claimed) ts
        then pure none
        else pure (
            some (
              other (
                codes "claimed ticket "
                ++ claimed
                ++ codes " does not match ticket-request "
                ++ request)))
  ]

-- validateTicketAnnotations
unfoldable pub validate_annotations : Cluster → Pod → M (Option Error)
validate_annotations env pod =
    let request = at_key ticket_request pod.meta.annotations in
    let claimed = at_key ticket_claimed pod.meta.annotations in
    if is_empty claimed
    then pure none
    else if is_empty request
    then pure (
        some (
          other (codes "ticket-claimed annotation cannot exist without ticket-request annotation")))
    else elim (validate_request request) [
      | some e ↦ pure (some e)
      | none ↦ validate_claimed env pod claimed request
    ]

-- PodCustomValidator.ValidateCreate
unfoldable pub validate_create : Cluster → Pod → M (Option Error)
validate_create env pod = if is_guardian pod then pure none else validate_annotations env pod

-- PodCustomValidator.ValidateUpdate and ValidateDelete
validate_update : Pod → Pod → Option Error
validate_update old pod = if is_guardian pod then none else none

validate_delete : Pod → Option Error
validate_delete pod = none
