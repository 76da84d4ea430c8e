-- ===== src/Sessions.antt =====
-- src/core/services/interview_session_service.py: invitation consumption, session authentication
-- and the reconnect rules.
pub mod Outcome
pub mod Responses
pub mod Validate
pub mod Enter
pub mod Connect
pub mod Calls
pub mod Invariant
pub mod Limits
pub mod Later
pub mod History
pub mod Lifecycle
pub mod Moves
pub mod Refinement
pub mod Authorize
pub mod Reconnect
pub mod Disconnect
pub mod Refusal
pub mod Admission
