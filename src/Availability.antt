-- ===== src/Availability.antt =====
-- manager/availability.py: which Web services answer, as the host of the Manager sees them.
pub mod Probe
pub mod Answering
pub mod Routes
pub mod Hosts
pub mod Listed
pub mod Monitor
pub mod Approval
pub mod Backoff
pub mod Claims
mod Samples
