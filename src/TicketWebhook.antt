-- ===== src/TicketWebhook.antt =====
-- internal/webhook/v1alpha1/ticket_webhook.go: the defaults of a ticket and its validation. A method
-- returns the warnings that it gives beside its error. The entries of a Go map are visited in the
-- order of the association list, and logs are left out.
pub mod Defaulter
pub mod Resources
pub mod Spec
pub mod Quotas
pub mod Validator
pub mod Defaults
pub mod Limits
pub mod Admission
mod Tests
