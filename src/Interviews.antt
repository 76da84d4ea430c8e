-- ===== src/Interviews.antt =====
-- src/data/repositories/interview_session_repository.py: the interview in progress, as the
-- interview engine writes it through the routes of src/api/rest/routes/internal_interview.py.
pub mod Rows
pub mod Requests
pub mod Initialize
pub mod Persist
pub mod PersistTurn
pub mod TabSwitch
pub mod TabRecord
pub mod TabSwitches
pub mod TabCounts
pub mod TabRepeat
pub mod Episodes
pub mod FaceRecord
pub mod Proctoring
pub mod FaceEvents
pub mod FaceGuards
pub mod FaceCounts
