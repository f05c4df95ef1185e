-- ===== src/Operation.antt =====
-- manager/operation_engine.py: planning, storing and running lifecycle operations.
pub mod Types
pub mod Identifier
pub mod Plan
pub mod Bounds
pub mod Ordering
pub mod Suspension
pub mod Store
pub mod World
pub mod Run
pub mod Progress
pub mod Actions
pub mod Attempts
pub mod Sequence
pub mod Conclusion
pub mod Restart
pub mod Submission
pub mod Exclusive
pub mod Occupancy
pub mod Entry
pub mod Acts
pub mod Resume
pub mod Coverage
mod Samples
mod Trials
