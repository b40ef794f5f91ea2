-- ===== src/Metrics.antt =====
-- internal/metrics/metrics.go: the metric vectors and the functions that count, set and observe
-- them. Prometheus is a parameter. Timed has the durations that the controllers report.
pub mod Vectors
pub mod Prometheus
pub mod Record
pub mod Requests
pub mod Series
pub mod Registered
pub mod Counts
pub mod Timed
pub mod Created
pub mod Ways
pub mod Accounts
mod Tests
