-- ===== src/PodWebhook/Choose.antt =====
-- internal/webhook/v1/pod_webhook.go: The choice of a ticket: selectBestTicket and the
-- compatibility score.
use korder.Prelude.{
  ℕ, ◌+◌, Bool, true, false, ◌||◌, Option, none, some, List, [], ◌∷◌, if◌then◌else◌, is_some, allb,
}
use korder.Prelude.Int.{ℤ, pos, negsuc, ltb_ℤ}
use korder.Prelude.Text.{Text, text_eq, lookup}
use korder.Api.Meta.{Pod, Labels, ResourceRequirements}
use korder.Api.Ticket.{Ticket}
use korder.Client.{Cluster, Reply, ok, err, M, pure, ◌>>=◌}
use korder.PodWebhook.Find.{is_available, find_by_request}

-- checkResourceCompatibility
check_resources : Option ResourceRequirements → Bool
check_resources none = true
check_resources (some r) = is_some r.requests || is_some r.limits

same_value : Labels → Text × Text → Bool
same_value m (k, v) = elim (lookup k m) [ none ↦ false | some w ↦ text_eq w v ]

-- checkNodeSelectorCompatibility
check_node_selector : Option Labels → Option Labels → Bool
unfolding same_value
check_node_selector (some wanted) (some offered) = allb (same_value offered) wanted
check_node_selector _ _ = true

-- calculateCompatibilityScore; checkAffinityCompatibility is true.
unfoldable pub score : Pod → Ticket → ℕ
unfolding check_resources check_node_selector
score pod t =
    (if is_some t.status.node_name then 10 else 0)
    + (if check_resources t.spec.resources then 20 else 0)
    + (if check_node_selector pod.spec.node_selector t.spec.node_selector then 15 else 0)
    + 10

-- The loop of selectBestTicket, with the best ticket so far and its score.
unfoldable pub select_from : Pod → Option Ticket → ℤ → List Ticket → Option Ticket
select_from pod best best_score [] = best
select_from pod best best_score (t ∷ ts) = elim (is_available t) [
  | false ↦ select_from pod best best_score ts
  | true ↦ elim (ltb_ℤ best_score (pos (score pod t))) [
    | true ↦ select_from pod (some t) (pos (score pod t)) ts
    | false ↦ select_from pod best best_score ts
  ]
]

-- selectBestTicket
unfoldable pub select_best : Pod → List Ticket → Option Ticket
select_best pod ts = select_from pod none (negsuc 0) ts

-- FindAvailableTicket of the helper
unfoldable pub find_available : Cluster → Pod → Text → M (Reply (Option Ticket))
find_available env pod request = do
  found ← find_by_request env pod request
  elim found [ err e ↦ pure (err e) | ok ts ↦ pure (ok (select_best pod ts)) ]
