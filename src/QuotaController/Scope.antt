-- ===== src/QuotaController/Scope.antt =====
-- internal/controller/quota_controller.go: getResourcesInScope and getNamespacesMatchingSelector.
use korder.Prelude.{Option, none, some, List, [], ◌∷◌, ◌++◌}
use korder.Prelude.Text.{Text}
use korder.Api.Meta.{ObjectMeta, LabelSelector}
use korder.Api.Ticket.{Ticket}
use korder.Api.Order.{Order}
use korder.Api.Quota.{Quota, QuotaScopeType}
use korder.Client.{
  Cluster, Reply, ok, err, M, pure, ◌>>=◌, ListScope, in_namespace, selected, find_orders,
  find_daemon_orders, find_cron_orders, find_tickets, find_selected_tickets, find_namespaces,
}

-- The four lists that are returned.
pub record Scoped : Type 0 where
  pub orders : List Order
  pub daemon_orders : List ObjectMeta
  pub cron_orders : List ObjectMeta
  pub tickets : List Ticket

abbrev pub nothing : Scoped
nothing = record { orders = []; daemon_orders = []; cron_orders = []; tickets = [] }

abbrev pub join : Scoped → Scoped → Scoped
join a b = record {
  orders = a.orders ++ b.orders;
  daemon_orders = a.daemon_orders ++ b.daemon_orders;
  cron_orders = a.cron_orders ++ b.cron_orders;
  tickets = a.tickets ++ b.tickets;
}

unfoldable pub list_tickets_in : Cluster → ListScope → M (Reply (List Ticket))
list_tickets_in env (in_namespace ns) = find_tickets env ns []
list_tickets_in env (selected selector) = find_selected_tickets env selector

-- The four calls of one list scope.
unfoldable pub list_scope : Cluster → ListScope → M (Reply Scoped)
unfolding list_tickets_in
list_scope env scope = do
  orders ← find_orders env scope
  elim orders [
    | err e ↦ pure (err e)
    | ok os ↦ do
      daemon_orders ← find_daemon_orders env scope
      elim daemon_orders [
        | err e ↦ pure (err e)
        | ok ds ↦ do
          cron_orders ← find_cron_orders env scope
          elim cron_orders [
            | err e ↦ pure (err e)
            | ok cs ↦ do
              tickets ← list_tickets_in env scope
              elim tickets [
                | err e ↦ pure (err e)
                | ok ts ↦ pure (
                    ok (record { orders = os; daemon_orders = ds; cron_orders = cs; tickets = ts }))
              ]
          ]
      ]
  ]

-- The loop over namespaces.
unfoldable pub list_namespaces_of : Cluster → List Text → Scoped → M (Reply Scoped)
list_namespaces_of env [] found = pure (ok found)
list_namespaces_of env (ns ∷ rest) found = list_scope env (in_namespace ns) >>= λ listed.
    elim listed [ err e ↦ pure (err e) | ok more ↦ list_namespaces_of env rest (join found more) ]

names : List ObjectMeta → List Text
names [] = []
names (m ∷ ms) = m.name ∷ names ms

-- getNamespacesMatchingSelector
namespaces_matching : Cluster → Option LabelSelector → M (Reply (List ObjectMeta))
namespaces_matching env none = pure (ok [])
namespaces_matching env (some selector) = elim (env.selector_error selector) [
  | some e ↦ pure (err e)
  | none ↦ find_namespaces env selector
]

-- The resources that an object selector selects.
selected_resources : Cluster → Option LabelSelector → M (Reply Scoped)
selected_resources env none = pure (ok nothing)
selected_resources env (some selector) = elim (env.selector_error selector) [
  | some e ↦ pure (err e)
  | none ↦ list_scope env (selected selector)
]

-- getResourcesInScope
unfoldable pub resources_in_scope : Cluster → Quota → M (Reply Scoped)
unfolding list_scope list_namespaces_of names namespaces_matching selected_resources
resources_in_scope env quota =
    let scope = quota.spec.scope in
    elim scope.kind [
      | QuotaScopeType.cluster ↦ list_scope env (in_namespace [])
      | QuotaScopeType.namespace_list ↦ list_namespaces_of env scope.namespaces nothing
      | QuotaScopeType.namespace_selector ↦
          namespaces_matching env scope.namespace_selector >>= λ listed. elim listed [
            | err e ↦ pure (err e)
            | ok ms ↦ list_namespaces_of env (names ms) nothing
          ]
      | QuotaScopeType.object_selector ↦ selected_resources env scope.object_selector
      | _ ↦ pure (ok nothing)
    ]
