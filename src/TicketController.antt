-- ===== src/TicketController.antt =====
-- internal/controller/ticket_controller.go: the guardian pod and the life of a ticket. A method
-- takes the ticket as it stands in memory and returns where it only writes it to the server. Logs
-- and metrics are left out.
pub mod Write
pub mod Guardian
pub mod Activate
pub mod Retire
pub mod Reconcile
pub mod Cleanup
pub mod Diagram
pub mod Phases
pub mod Recreate
mod Tests
