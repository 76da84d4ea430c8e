-- ===== src/Candidates/Kept.antt =====
-- Decisions, deletions and parsed resumes keep candidates and enrollments consistent.
use i_bot_core_api_service.Prelude.{
  refl, String, Bool, not, Option, none, some, List, [], ◌∷◌, filter, ◌==◌, nat_eq, string_eq,
  Option-cases, inl, inr,
}
use i_bot_core_api_service.Db.{
  Db, Uuid, Candidate, CandidateAssessment, InterviewSession, InterviewEvaluation, NotificationLog,
  Decision, ParseStatus, pure, Exec, find, modify, ◌>>=◌,
}
use i_bot_core_api_service.Json.{Json}
use i_bot_core_api_service.Keeps.{
  Keeps, keeps_rules, Keeps-bind, Keeps-pure, Keeps-raise, Keeps-gets, Keeps-session_scope,
}
use i_bot_core_api_service.Office.{Office, Job, on_rows, enqueue, register_after_commit_callback}
use i_bot_core_api_service.Repositories.Env.{Env}
use i_bot_core_api_service.Repositories.Statements.{enrollment_has_id}
use i_bot_core_api_service.Candidates.Repository.{
  has_candidate_id, delete_candidate, delete_enrollment, save_decision, decided, with_resume,
  failed_resume, update_resume_parsing_result,
}
use i_bot_core_api_service.Candidates.Service.{write_temporary_resume}
use i_bot_core_api_service.Candidates.Enroll.{or_raise}
use i_bot_core_api_service.Candidates.Manage.{
  Parsed, content, failure, registration, update_recruiter_decision,
  delete_candidate_from_assessment, process_candidate_resume_in_background, delete_if_left,
}
use i_bot_core_api_service.Candidates.Consistent.{
  IsConsistent, Distinct-filter, NoClash-filter, OneEach-filter,
}
use i_bot_core_api_service.Candidates.Statements.{updated-IsConsistent}

-- The same of the state with the jobs.
abbrev pub IsOrderly : Office → Type 0
IsOrderly o = IsConsistent o.db

pub Keeps-on_rows :
    {A : Type 0} (m : Exec Db A) → Keeps IsConsistent m → Keeps IsOrderly (on_rows m)
Keeps-on_rows m k = record { holds_after = λ o h. k.holds_after o.db h }

Keeps-enqueue : (job : Job) → Keeps IsOrderly (enqueue job)
unfolding enqueue modify
Keeps-enqueue job = record { holds_after = λ o h. h }

pub Keeps-register : (job : Job) → Keeps IsOrderly (register_after_commit_callback job)
unfolding register_after_commit_callback modify
Keeps-register job = record { holds_after = λ o h. h }

pub Keeps-write : (stored : Bool) → Keeps IsOrderly (write_temporary_resume stored)
unfolding write_temporary_resume
Keeps-write stored = search keeps_rules

Keeps-or_raise : {A : Type 0} (e : _) (o : Option A) → Keeps IsOrderly (or_raise e o)
Keeps-or_raise e none = Keeps-raise _
Keeps-or_raise e (some a) = Keeps-pure _

Keeps-registration : (id : Uuid) → Keeps IsOrderly (registration id)
unfolding registration
Keeps-registration id = search (keeps_rules, Keeps-or_raise)

Keeps-save_decision :
    (env : Env) (id : Uuid) (decision : Decision) (feedback : Option String)
    → Keeps IsConsistent (save_decision env id decision feedback)
unfolding save_decision
Keeps-save_decision env id decision feedback = record {
  holds_after =
      updated-IsConsistent (decided env decision feedback) (λ c. refl) (λ c. refl) (λ c. refl)
        (enrollment_has_id id);
}

Keeps-saved :
    (env : Env) (id : Uuid) (status : ParseStatus) (parsed : Json)
    → Keeps IsConsistent (update_resume_parsing_result env id status parsed)
unfolding update_resume_parsing_result
Keeps-saved env id status parsed = record {
  holds_after =
      updated-IsConsistent (with_resume env status parsed) (λ c. refl) (λ c. refl) (λ c. refl)
        (enrollment_has_id id);
}

pub Keeps-decision :
    (env : Env) (id recruiter_id : Uuid) (decision : Decision) (feedback : Option String)
    → Keeps IsOrderly (update_recruiter_decision env id recruiter_id decision feedback)
unfolding update_recruiter_decision
Keeps-decision env id recruiter_id decision feedback =
    search (keeps_rules, Keeps-registration, Keeps-on_rows, Keeps-save_decision, Keeps-enqueue)
      depth 12

pub Keeps-delete_candidate : (id : Uuid) → Keeps IsConsistent (delete_candidate id)
unfolding delete_candidate modify
Keeps-delete_candidate id = record {
  holds_after = λ db h. record {
    addresses = Distinct-filter (λ c. not (has_candidate_id id c)) db.candidates h.addresses;
    registrations = h.registrations;
    windows = h.windows;
  };
}

Keeps-delete_found :
    (found : Option Candidate)
    → Keeps {A = Unit {0}} IsOrderly
        (elim found [ none ↦ pure tt | some c ↦ on_rows (delete_candidate c.id) ])
Keeps-delete_found none = Keeps-pure _
Keeps-delete_found (some c) = Keeps-on_rows _ (Keeps-delete_candidate c.id)

Keeps-delete_if_left :
    (id : Uuid) (left : List CandidateAssessment) → Keeps IsOrderly (delete_if_left id left)
Keeps-delete_if_left id (_ ∷ _) = Keeps-pure _
Keeps-delete_if_left id [] = Keeps-bind _ _ (Keeps-gets _) (λ found. Keeps-delete_found found)

removed-IsConsistent :
    (id : Uuid) (db : Db) (sessions : List InterviewSession)
    (evaluations : List InterviewEvaluation) (logs : List NotificationLog)
    → IsConsistent db
    → IsConsistent (record db {
      interview_sessions = sessions;
      interview_evaluations = evaluations;
      notification_logs = logs;
      candidate_assessments = filter (λ ca. not (enrollment_has_id id ca)) db.candidate_assessments;
    })
removed-IsConsistent id db sessions evaluations logs h = record {
  addresses = h.addresses;
  registrations =
      OneEach-filter (λ ca. not (enrollment_has_id id ca)) db.candidate_assessments h.registrations;
  windows =
      NoClash-filter db.assessments (λ ca. not (enrollment_has_id id ca)) db.candidate_assessments
        h.windows;
}

Keeps-delete_enrollment : (id : Uuid) → Keeps IsConsistent (delete_enrollment id)
unfolding delete_enrollment ◌>>=◌
Keeps-delete_enrollment id = record {
  holds_after = λ db h.
      elim (Option-cases (find (λ s. s.candidate_assessment_id == id) db.interview_sessions)) [
        | inl e ↦ rw e (removed-IsConsistent id db _ _ _ h)
        | inr (s, e) ↦ rw e (removed-IsConsistent id db _ _ _ h)
      ];
}

pub Keeps-delete :
    (id recruiter_id : Uuid) → Keeps IsOrderly (delete_candidate_from_assessment id recruiter_id)
unfolding delete_candidate_from_assessment
Keeps-delete id recruiter_id =
    search (
      keeps_rules, Keeps-registration, Keeps-on_rows, Keeps-delete_enrollment, Keeps-delete_if_left,
    )

pub Keeps-resume :
    (env : Env) (id : Uuid) (parsed : Option Parsed)
    → Keeps IsConsistent (process_candidate_resume_in_background env id parsed)
unfolding process_candidate_resume_in_background
Keeps-resume env id none = Keeps-pure _
Keeps-resume env id (some (content json)) =
    Keeps-session_scope _ (Keeps-saved env id ParseStatus.completed json)
Keeps-resume env id (some (failure e)) =
    Keeps-session_scope _ (Keeps-saved env id ParseStatus.failed (failed_resume e))
