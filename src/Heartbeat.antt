-- ===== src/Heartbeat.antt =====
-- manager/runner_heartbeat.py: the evidence of the issue runner, and the guards of its writers.
pub mod Phases
pub mod Beats
pub mod Lease
pub mod Listing
pub mod Recency
pub mod Expiry
pub mod Retention
pub mod Renewal
mod Samples
