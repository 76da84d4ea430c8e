-- ===== src/Tests.antt =====
-- Runs of the model on small databases, and the theorems at concrete inputs.
pub mod Data
mod Sessions
mod Interviews
mod Accounts
mod Persist
mod Candidates
mod Notifications
mod Evaluations
mod Planning
mod Proctoring
mod Assessments
