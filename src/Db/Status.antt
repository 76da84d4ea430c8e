-- ===== src/Db/Status.antt =====
-- The status columns. The code writes and compares only the values that the models' comments list,
-- in upper case, so `.upper()` leaves each of them alone.
use i_bot_core_api_service.Prelude.{String, Bool, true, false}

pub data SessionStatus : Type 0 where
  initializing in_progress disconnected completed evaluated : SessionStatus
  evaluation_failed deactivated terminated : SessionStatus

pub data EnrollmentStatus : Type 0 where
  invited waiting_room in_progress completed evaluated terminated : EnrollmentStatus

pub data AssessmentStatus : Type 0 where
  draft processing active closed : AssessmentStatus

pub data ParseStatus : Type 0 where
  pending completed failed : ParseStatus

pub data Decision : Type 0 where
  pending approved rejected : Decision

-- TERMINAL_SESSION_STATUSES
abbrev pub is_terminal_session : SessionStatus → Bool
is_terminal_session SessionStatus.initializing = false
is_terminal_session SessionStatus.in_progress = false
is_terminal_session SessionStatus.disconnected = false
is_terminal_session _ = true

-- TERMINAL_CANDIDATE_STATUSES
abbrev pub is_terminal_candidate : EnrollmentStatus → Bool
is_terminal_candidate EnrollmentStatus.completed = true
is_terminal_candidate EnrollmentStatus.evaluated = true
is_terminal_candidate EnrollmentStatus.terminated = true
is_terminal_candidate _ = false

-- status in ("INITIALIZING", "IN_PROGRESS")
abbrev pub is_live : SessionStatus → Bool
is_live SessionStatus.initializing = true
is_live SessionStatus.in_progress = true
is_live _ = false

abbrev pub is_disconnected : SessionStatus → Bool
is_disconnected SessionStatus.disconnected = true
is_disconnected _ = false

abbrev pub is_in_progress : SessionStatus → Bool
is_in_progress SessionStatus.in_progress = true
is_in_progress _ = false

abbrev pub is_terminated : SessionStatus → Bool
is_terminated SessionStatus.terminated = true
is_terminated _ = false

abbrev pub is_evaluated : SessionStatus → Bool
is_evaluated SessionStatus.evaluated = true
is_evaluated _ = false

abbrev pub is_closed_assessment : AssessmentStatus → Bool
is_closed_assessment AssessmentStatus.closed = true
is_closed_assessment _ = false

abbrev pub session_status_text : SessionStatus → String
session_status_text SessionStatus.initializing = "INITIALIZING"
session_status_text SessionStatus.in_progress = "IN_PROGRESS"
session_status_text SessionStatus.disconnected = "DISCONNECTED"
session_status_text SessionStatus.completed = "COMPLETED"
session_status_text SessionStatus.evaluated = "EVALUATED"
session_status_text SessionStatus.evaluation_failed = "EVALUATION_FAILED"
session_status_text SessionStatus.deactivated = "DEACTIVATED"
session_status_text SessionStatus.terminated = "TERMINATED"

abbrev pub enrollment_status_text : EnrollmentStatus → String
enrollment_status_text EnrollmentStatus.invited = "INVITED"
enrollment_status_text EnrollmentStatus.waiting_room = "WAITING_ROOM"
enrollment_status_text EnrollmentStatus.in_progress = "IN_PROGRESS"
enrollment_status_text EnrollmentStatus.completed = "COMPLETED"
enrollment_status_text EnrollmentStatus.evaluated = "EVALUATED"
enrollment_status_text EnrollmentStatus.terminated = "TERMINATED"
