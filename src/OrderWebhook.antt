-- ===== src/OrderWebhook.antt =====
-- internal/webhook/v1alpha1/order_webhook.go: the defaults of an order and its validation. The
-- entries of a Go map are visited in the order of the association list, and logs are left out.
pub mod Defaulter
pub mod Spec
pub mod Quotas
pub mod Validator
pub mod Defaults
pub mod Requests
pub mod Updates
pub mod Admission
pub mod Deletion
pub mod Decision
pub mod Growth
pub mod Burst
mod Tests
