-- ===== src/QuotaController/Count.antt =====
-- internal/controller/quota_controller.go: calculateResourceUsage.
use korder.Prelude.{Option, none, some, List, [], ◌∷◌, ◌+◌, if◌then◌else◌, get_or, length}
use korder.Prelude.Text.{Text, codes, lookup, insert}
use korder.Api.Meta.{Quantity, ResourceList}
use korder.Api.Ticket.{Ticket, TicketSpec}
use korder.Api.Quota.{Quota}
use korder.Client.{Cluster, Reply, ok, err, M, pure, ◌>>=◌}
use korder.QuotaController.Scope.{Scoped, resources_in_scope}
use korder.Usage.{enter_count}

-- What the ticket requests of the resource.
unfoldable pub requested : Text → TicketSpec → Option Quantity
requested name spec = elim spec.resources [
  | none ↦ none
  | some r ↦ lookup name (get_or r.requests [])
]

-- The loop over the tickets, for one of the two totals.
unfoldable pub add_requests : Cluster → Text → List Ticket → Quantity → Quantity
add_requests env name [] total = total
add_requests env name (t ∷ ts) total = elim (requested name t.spec) [
  | none ↦ add_requests env name ts total
  | some q ↦ add_requests env name ts (env.add_quantity total q)
]

unfoldable pub enter_total : Cluster → Text → Quantity → ResourceList → ResourceList
enter_total env name total usage = if env.is_zero total then usage else insert name total usage

-- The counts of the four lists.
unfoldable pub count_lists : Cluster → Scoped → ResourceList
count_lists env found =
    let orders = length found.orders in
    let daemon_orders = length found.daemon_orders in
    let cron_orders = length found.cron_orders in
    enter_count env (codes "tickets") (length found.tickets) (
      enter_count env (codes "orders.cron") cron_orders (
        enter_count env (codes "orders.daemon") daemon_orders (
          enter_count env (codes "orders.regular") orders
            (enter_count env (codes "orders") (orders + daemon_orders + cron_orders) []))))

-- With the totals of what the tickets reserve.
unfoldable pub count_resources : Cluster → Scoped → ResourceList
unfolding count_lists add_requests enter_total
count_resources env found =
    enter_total env (codes "reserved.memory")
      (add_requests env (codes "memory") found.tickets env.zero_quantity)
      (enter_total env (codes "reserved.cpu")
        (add_requests env (codes "cpu") found.tickets env.zero_quantity) (count_lists env found))

-- calculateResourceUsage
unfoldable pub resource_usage : Cluster → Quota → M (Reply ResourceList)
resource_usage env quota = do
  scoped ← resources_in_scope env quota
  elim scoped [ err e ↦ pure (err e) | ok found ↦ pure (ok (count_resources env found)) ]
