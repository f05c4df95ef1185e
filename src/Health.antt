-- ===== src/Health.antt =====
-- manager/health.py: the health of the lab, roots before consumers.
pub mod States
pub mod Checks
pub mod Evidence
pub mod External
pub mod Dimensions
pub mod Evaluation
pub mod Subjects
pub mod Document
pub mod Ranking
pub mod Verdict
pub mod Environment
pub mod Impact
pub mod Blocking
pub mod Suppression
pub mod Roots
pub mod Completeness
pub mod Ordering
mod Samples
