-- ===== src/QuotaWebhook.antt =====
-- internal/webhook/v1alpha1/quota_webhook.go: the defaults of a quota and its validation. The
-- entries of a Go map are visited in the order of the association list, and logs are left out.
pub mod Defaulter
pub mod Spec
pub mod Validator
pub mod Defaults
pub mod Scopes
mod Tests
