-- ===== src/Manager.antt =====
-- cmd/main.go: the start of the program. Slices has the slices of TLS options, Setup the calls and
-- their state, Options the two servers, Start the sequence of main; Plan and Tls say what it comes to.
pub mod Slices
pub mod Setup
pub mod Options
pub mod Start
pub mod Plan
pub mod Follows
pub mod Program
pub mod Started
pub mod Tls
mod Tests
