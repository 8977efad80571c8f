-- ===== src/Demo.antt =====
pub mod Launching
pub mod Scenarios
pub mod Calm
pub mod Isolation
mod Tests

-- cmd/demo/main.go: the demonstration on a simulated Docker client. What it prints is a value: how
-- the launches ended, and the decisions of the scheduler.
