-- ===== src/OrderController/Report.antt =====
-- internal/controller/order_controller.go: updateOrderStatus.
use korder.Prelude.{Option, none, some, List, if◌then◌else◌, countb}
use korder.Prelude.Int.{pos, wrap32}
use korder.Prelude.Text.{Text, codes, text_eq}
use korder.Api.Meta.{Time}
use korder.Api.Condition.{holds, update_condition}
use korder.Api.Ticket.{Ticket, is_expired, is_pending}
use korder.Api.Order.{Order, OrderStatus}
use korder.Client.{
  Cluster, Error, ok, err, Call, M, ◌>>=◌, write, now, Outcome, done, Return, return_ok, return_err,
}
use korder.OrderController.Tickets.{owned_tickets, filter_active, len32}

-- The counters of the status; those that a loop increments start at 0 and stay below the length.
unfoldable pub count_replicas : List Ticket → OrderStatus → OrderStatus
count_replicas ts s = record s {
  replicas = some (len32 ts);
  available_replicas = some (len32 (filter_active ts));
  unavailable_replicas = some (wrap32 (pos (countb (λ t. is_pending t.status.phase) ts)));
  terminal_replicas = some (wrap32 (pos (countb (λ t. is_expired t.status.phase) ts)));
  updated_replicas = some (len32 (filter_active ts));
}

-- The condition that a reason is filed under.
unfoldable pub condition_kind : Text → Text
condition_kind reason = if text_eq reason (codes "Failed") then codes "Failure" else codes "Ready"

-- The order that updateOrderStatus writes.
unfoldable pub with_status : Order → List Ticket → Text → Text → Time → Order
with_status order ts reason message at_time =
    let s = count_replicas ts order.status in
    record order {
      status = record s {
        observed_generation = some order.meta.generation;
        conditions =
            update_condition (condition_kind reason) holds at_time reason message
              order.status.conditions;
      };
    }

abbrev pub finish : Outcome → Option Error → M Return
finish good none = return_ok good
finish good (some e) = return_err done e

-- updateOrderStatus
unfoldable pub update_order_status : Cluster → Order → Text → Text → M Return
update_order_status env order reason message = do
  listed ← owned_tickets env order
  elim listed [
    | err e ↦ return_err done e
    | ok ts ↦ do
      at_time ← now env
      failure ← write env (Call.update_order_status (with_status order ts reason message at_time))
      finish done failure
  ]
