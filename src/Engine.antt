-- ===== src/Engine.antt =====
-- src/engine.rs: the authentication engine.
pub mod Types
pub mod Base
pub mod Candidates
pub mod Network
pub mod Settings
pub mod Updates
pub mod Calls
pub mod Loop
pub mod Run
pub mod Invariant
pub mod Held
pub mod Deadlines
pub mod Outcomes
pub mod Ranking
pub mod Selection
pub mod Subscribers
pub mod Saving
pub mod Signals
