-- ===== src/Machine/Moves.antt =====
-- A step forwards does the next event and fills it in; a step backwards undoes the last one. Both
-- leave a machine that agrees with the replay.
mod Forwards
mod Backwards
pub mod Hits
pub mod Step
pub mod Watchpoints
pub use Forwards.*
pub use Backwards.*
