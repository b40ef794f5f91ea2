-- ===== src/Lifecycle.antt =====
-- The life of one ticket at the server, under the ticket controller
-- (internal/controller/ticket_controller.go), the pod webhook (internal/webhook/v1/pod_webhook.go)
-- and the edits of its specification by others: a history of steps, and the machine of phases and
-- claims that it refines. A step is one run of a component, with the writes that the server accepts.
-- The server refuses a write that is based on an old version of an object, so the writes of a run
-- that are accepted were made to the ticket that the run has read.
pub mod Machine
pub mod History
pub mod Stored
pub mod Binding
pub mod Refines
mod Tests
