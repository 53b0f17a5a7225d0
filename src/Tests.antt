-- ===== src/Tests.antt =====
-- A trace of two events, the machine that starts on it, and the theorems at them.
pub mod Sample
mod Witnesses
mod Runs
pub mod Host
pub mod Readers
mod Handlers
mod Serving
mod Traced
mod Start
