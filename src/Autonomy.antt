-- ===== src/Autonomy.antt =====
-- supervisor/autonomy_policy.py: which actions the supervisor may take without asking.
pub mod Policy
pub mod Files
pub mod Safety
pub mod Effective
pub mod Guarantees
pub mod Reload
mod Samples
