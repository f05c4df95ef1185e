-- ===== src/Authorization.antt =====
-- manager/authorization.py: identities, risk policy, the approval ledger and the service over it.
pub mod Policy
pub mod Ledger
pub mod Service
pub mod Consumption
pub mod Authorised
pub mod SingleUse
pub mod FailClosed
pub mod Approval
mod Scenarios
