-- ===== src/Machine/Runs.antt =====
-- What a call of `run` comes to.
pub mod Stops
pub mod Loop
pub mod Cancel
pub mod Returns
pub mod Times
pub mod Total
