-- ===== src/Repositories/Ending.antt =====
-- What is expected of times that are written once, and of the enrollment of an interview that ends.
use i_bot_core_api_service.Prelude.{Option, none, some}
use i_bot_core_api_service.Db.{Time, CandidateAssessment, EnrollmentStatus}

-- A time that is written only once.
abbrev pub unless_set : Option Time → Time → Option Time
unless_set none now = some now
unless_set (some t) now = some t

-- Terminated, with the time of the end unless one was set.
abbrev pub terminated_at : Time → CandidateAssessment → CandidateAssessment
terminated_at now c = record c {
  status = EnrollmentStatus.terminated;
  interview_ended_at = unless_set c.interview_ended_at now;
  updated_at = now;
}

-- In progress, since just now.
abbrev pub in_progress_at : Time → CandidateAssessment → CandidateAssessment
in_progress_at now c = record c { status = EnrollmentStatus.in_progress; updated_at = now }
