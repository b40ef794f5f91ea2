-- ===== src/OrderController/Reconcile.antt =====
-- internal/controller/order_controller.go: Reconcile, with handleDeletion and deleteOwnedTickets.
use korder.Prelude.{true, false, Option, none, some, List, [], ◌∷◌, ◌++◌, if◌then◌else◌, get_or}
use korder.Prelude.Text.{codes}
use korder.Api.Meta.{Key}
use korder.Api.Ticket.{Ticket}
use korder.Api.Order.{Order}
use korder.Client.{
  Cluster, Error, error_text, is_not_found, ok, err, Call, M, pure, ◌>>=◌, write, find_order, done,
  again, Return, return_ok, return_err,
}
use korder.OrderController.Tickets.{order_finalizer, owned_tickets}
use korder.OrderController.Report.{finish, update_order_status}
use korder.OrderController.Balance.{reconcile_tickets}

-- The loop of deleteOwnedTickets.
unfoldable pub delete_all : Cluster → List Ticket → M (Option Error)
delete_all env [] = pure none
delete_all env (t ∷ ts) = do
  failure ← write env (Call.delete_ticket t)
  elim failure [
    | none ↦ delete_all env ts
    | some e ↦ elim (is_not_found e) [ true ↦ delete_all env ts | false ↦ pure (some e) ]
  ]

-- deleteOwnedTickets
unfoldable pub delete_owned : Cluster → Order → M (Option Error)
delete_owned env order = do
  listed ← owned_tickets env order
  elim listed [ err e ↦ pure (some e) | ok ts ↦ delete_all env ts ]

-- handleDeletion
unfoldable pub handle_deletion : Cluster → Order → M Return
handle_deletion env order = do
  failure ← delete_owned env order
  elim failure [
    | some e ↦ return_err done e
    | none ↦ do
      failed ← write env (
          Call.update_order
            (record order { meta = env.remove_finalizer order.meta order_finalizer }))
      finish done failed
  ]

-- Reconcile behind the guards: the tickets, then the status.
unfoldable pub reconcile_active : Cluster → Order → M Return
reconcile_active env order = do
  result ← reconcile_tickets env order
  elim result [
    | err e ↦
        (update_order_status env order (codes "Failed")
            (codes "Failed to reconcile tickets: " ++ error_text e)
          >>= λ ignored. return_err done e)
    | ok outcome ↦
        (update_order_status env order (codes "Ready") (codes "Order is processing normally")
          >>= λ updated. finish outcome updated.error)
  ]

-- Reconcile behind the fetch of the order.
unfoldable pub reconcile_found : Cluster → Order → M Return
reconcile_found env order = elim order.meta.deletion_timestamp [
  | some d ↦ handle_deletion env order
  | none ↦
      if env.contains_finalizer order.meta order_finalizer
      then (if get_or order.spec.paused false
          then update_order_status env order (codes "Paused") (codes "Order is paused")
          else reconcile_active env order)
      else (write env (
            Call.update_order
              (record order { meta = env.add_finalizer order.meta order_finalizer }))
          >>= finish again)
]

-- Reconcile
unfoldable pub reconcile : Cluster → Key → M Return
reconcile env key = do
  found ← find_order env key
  elim found [
    | err e ↦ if is_not_found e then return_ok done else return_err done e
    | ok order ↦ reconcile_found env order
  ]
