-- ===== src/PodWebhook.antt =====
-- internal/webhook/v1/pod_webhook.go: the binding of a pod to a ticket when the pod is created, and
-- the validation of its annotations. An annotation that is not there reads as the empty string. A
-- pod that the defaulter changes is returned. Logs are left out.
pub mod Find
pub mod Choose
pub mod Defaulter
pub mod Validator
pub mod Select
pub mod Selector
pub mod Bind
pub mod Validate
mod Tests
