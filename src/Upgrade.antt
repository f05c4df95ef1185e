-- ===== src/Upgrade.antt =====
-- manager/profile_upgrade.py: the execution of an approved upgrade, and the recovery after it.
pub mod Types
pub mod Evidence
pub mod Planning
pub mod Submission
pub mod Cancellation
pub mod Readiness
pub mod Acceptance
pub mod Spending
pub mod SingleUse
pub mod Planned
pub mod Promise
pub mod World
pub mod Rollback
pub mod Run
pub mod Progress
pub mod Steps
pub mod Loop
pub mod Recovery
pub mod Restart
pub mod Outcome
pub mod Boundaries
mod Samples
mod Trials
