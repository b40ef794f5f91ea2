-- ===== src/Converge.antt =====
-- The order controller (internal/controller/order_controller.go) on a server that stores what it
-- accepts: what one run of reconcileTickets leaves for the next. Store says what is expected of the
-- server, Grow is about the tickets that are created, Names and Shrink about those that are deleted.
pub mod Store
pub mod Grow
pub mod Names
pub mod Shrink
pub mod Settles
mod Tests
