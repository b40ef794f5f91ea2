-- ===== src/QuotaController.antt =====
-- internal/controller/quota_controller.go: the reconciler of quotas. Logs and metrics are left out.
-- The types of daemon orders and of cron orders, which the API does not define, are only counted:
-- the server lists their metadata.
pub mod Scope
pub mod Count
pub mod Limits
pub mod Reconcile
pub mod Validate
pub mod Totals
pub mod Bounds
pub mod Reports
mod Tests
