-- ===== src/PodWebhook/Find.antt =====
-- internal/webhook/v1/pod_webhook.go: The search for the tickets of a request:
-- FindTicketsByRequest.
use korder.Prelude.{
  Bool, false, ◌&&◌, none, some, List, [], ◌∷◌, ◌++◌, if◌then◌else◌, is_empty, is_some, get_or,
  filterb,
}
use korder.Prelude.Text.{Text, codes, text_eq, lookup, insert}
use korder.Prelude.Strings.{split, trim_space, cut_prefix}
use korder.Api.Meta.{Pod, Labels}
use korder.Api.Ticket.{Ticket, is_ready, phase_text}
use korder.Client.{Cluster, other, Reply, ok, err, M, pure, ◌>>=◌, find_ticket, find_tickets}

abbrev pub ticket_request : Text
ticket_request = codes "korder.dev/ticket-request"

abbrev pub ticket_claimed : Text
ticket_claimed = codes "korder.dev/ticket-claimed"

abbrev pub ticket_node : Text
ticket_node = codes "korder.dev/ticket-node"

abbrev ticket_group : Text
ticket_group = codes "korder.dev/ticket-group"

-- A Go map with strings, read at a key.
abbrev pub at_key : Text → Labels → Text
at_key k m = get_or (lookup k m) []

-- A ticket that can be claimed.
abbrev pub is_available : Ticket → Bool
is_available t = is_ready t.status.phase && is_some t.status.node_name

-- getSpecificTicket
unfoldable pub get_specific_ticket : Cluster → Text → Text → M (Reply Ticket)
get_specific_ticket env ns name = do
  found ← find_ticket env (record { namespace = ns; name = name })
  elim found [
    | err e ↦ pure (err e)
    | ok t ↦
        if is_available t
        then pure (ok t)
        else pure (
            err (
              other (
                codes "ticket "
                ++ name
                ++ codes " is not available for claiming (phase: "
                ++ phase_text t.status.phase
                ++ codes ")")))
  ]

unfoldable pub add_pair : List Text → Labels → Labels
add_pair (k ∷ v ∷ []) m = insert (trim_space k) (trim_space v) m
add_pair _ m = m

-- The loop over the pairs of a selector.
unfoldable pub add_pairs : List Text → Labels → Labels
unfolding add_pair
add_pairs [] m = m
add_pairs (p ∷ ps) m = add_pairs ps (add_pair (split b'=' (trim_space p)) m)

-- findTicketsBySelector
unfoldable pub find_by_selector : Cluster → Pod → Text → M (Reply (List Ticket))
find_by_selector env pod selector =
    let labels = add_pairs (split b',' selector) [] in
    if is_empty labels
    then pure (err (other (codes "invalid selector format: " ++ selector)))
    else find_tickets env pod.meta.namespace labels

in_group : Text → Ticket → Bool
in_group group t = elim (lookup ticket_group t.meta.annotations) [
  | none ↦ false
  | some g ↦ text_eq g group
]

-- findTicketsByGroup
unfoldable pub find_by_group : Cluster → Pod → Text → M (Reply (List Ticket))
unfolding in_group
find_by_group env pod group = do
  listed ← find_tickets env pod.meta.namespace []
  elim listed [ err e ↦ pure (err e) | ok ts ↦ pure (ok (filterb (in_group group) ts)) ]

abbrev single : Reply Ticket → Reply (List Ticket)
single (ok t) = ok (t ∷ [])
single (err e) = err e

-- FindTicketsByRequest
unfoldable pub find_by_request : Cluster → Pod → Text → M (Reply (List Ticket))
find_by_request env pod request = elim (cut_prefix (codes "name:") request) [
  | some name ↦
      if is_empty (trim_space name)
      then pure (err (other (codes "empty ticket name in 'name:' format")))
      else (get_specific_ticket env pod.meta.namespace (trim_space name) >>= λ r. pure (single r))
  | none ↦ elim (cut_prefix (codes "selector:") request) [
    | some selector ↦
        if is_empty (trim_space selector)
        then pure (err (other (codes "empty selector in 'selector:' format")))
        else find_by_selector env pod (trim_space selector)
    | none ↦ elim (cut_prefix (codes "group:") request) [
      | some group ↦
          if is_empty (trim_space group)
          then pure (err (other (codes "empty group name in 'group:' format")))
          else find_by_group env pod (trim_space group)
      | none ↦ get_specific_ticket env pod.meta.namespace request >>= λ r. pure (single r)
    ]
  ]
]
