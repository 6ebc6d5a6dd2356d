-- ===== src/Tests.antt =====
-- Concrete states, and runs of the model on them.
pub mod Fixtures
pub mod Claims
pub mod Archiving
pub mod Pruning
pub mod Releases
pub mod Publishing
pub mod Deleting
pub mod Draining
pub mod Times
pub mod Snapshots
pub mod Keyed
pub mod Polls
pub mod Opening
pub mod Runs
pub mod Signals
pub mod Texts
