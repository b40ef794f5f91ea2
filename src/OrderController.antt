-- ===== src/OrderController.antt =====
-- internal/controller/order_controller.go: the tickets of an order. Logs and metrics are left out.
-- Go's `int32`s are integers with their wrap-around; a loop over them recurs on the rounds left.
pub mod Tickets
pub mod Report
pub mod Balance
pub mod Reconcile
pub mod Create
pub mod Remove
pub mod Policy
pub mod Status
pub mod Returns
mod Tests
