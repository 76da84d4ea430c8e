-- ===== src/Tests/Proctoring.antt =====
-- Proctoring events and the start of an interview at concrete inputs.
use mathlib.Core.Option
use i_bot_core_api_service.Prelude.{
  ◌≡◌, ◌⊎◌, ◌&&◌, refl, true, false, not, none, some, List, [], ◌∷◌, length, filter, contains, leb,
  string_eq, if◌then◌else◌,
}
use i_bot_core_api_service.Json.{
  Fields, pos, null, int, str, arr, from_list, dict, get, truthy, leb_ℤ,
}
use i_bot_core_api_service.Db.{
  Db, InterviewSession, EnrollmentStatus, SessionStatus, ok, find, ◌>>=◌,
}
use i_bot_core_api_service.Repositories.Ending.{terminated_at}
use i_bot_core_api_service.Repositories.Statements.{session_by_id, enrollment_by_id}
use i_bot_core_api_service.Repositories.CandidateSession.{of_enrollment}
use i_bot_core_api_service.Violations.{has_type, event_ids, int_of}
use i_bot_core_api_service.Interviews.TabSwitch.{first_of, turn_number}
use i_bot_core_api_service.Interviews.Requests.{
  InterviewContext, load_interview_context, initialize_interview_context,
}
use i_bot_core_api_service.Interviews.Initialize.{initialize-starts}
use i_bot_core_api_service.Interviews.Episodes.{FaceEvent, face_episodes, merge_face_episode}
use i_bot_core_api_service.Interviews.FaceRecord.{
  face_violations, episode_from, put_episode, longest_of, longest, previous_duration,
  current_fields, reason_of, is_empty,
}
use i_bot_core_api_service.Interviews.Proctoring.{record_proctoring_event}
use i_bot_core_api_service.Interviews.FaceGuards.{IsAllowed, face-changes}
use i_bot_core_api_service.Interviews.FaceCounts.{face_event-recorded}
use i_bot_core_api_service.Tests.Data.{
  seconds, test_python, at_time, live_interview, new_interview, enrollment, assessment, database,
}

abbrev absence : FaceEvent
absence = record {
  event_id = 1;
  event_type = "face_absent";
  condition_started_at = seconds 40;
  observed_duration_ms = 6000;
  sample_count = 12;
  max_face_count = 0;
  min_confidence = none;
  max_confidence = none;
  source = "mediapipe_face_detector";
  detector_version = "1";
  model_name = "blaze";
}

abbrev db : Db
db = database EnrollmentStatus.in_progress live_interview

stored : session_by_id db 5 ≡ some live_interview
unfolding session_by_id find
stored = refl

no_episodes :
    face_episodes test_python (face_violations "face_absent" live_interview) db ≡ (ok [], db)
unfolding face_episodes face_violations filter ◌>>=◌
no_episodes = refl

no_previous :
    previous_duration test_python
      (at_time (seconds 50))
      (episode_from (test_python.isoformat (seconds 40)) [])
      db
    ≡ (ok (pos 0), db)
unfolding episode_from ◌>>=◌
no_previous = refl

news :
    (contains "one" (event_ids test_python (face_violations "face_absent" live_interview))
      && leb_ℤ (pos 6000) (pos 0))
    ≡ false
unfolding contains event_ids face_violations filter
news = refl

abbrev first_episode : Fields
first_episode = dict (
    ("condition_started_at", str "2026-01-01T00:00:00+00:00")
    ∷ ("first_recorded_at", str "2026-01-01T00:00:00+00:00")
    ∷ ("last_recorded_at", str "2026-01-01T00:00:00+00:00")
    ∷ ("max_observed_duration_ms", int (pos 6000))
    ∷ ("sample_count", int (pos 12))
    ∷ ("max_face_count", int (pos 0))
    ∷ ("min_confidence", null)
    ∷ ("max_confidence", null)
    ∷ ("source", str "mediapipe_face_detector")
    ∷ ("detector_version", str "1")
    ∷ ("model_name", str "blaze")
    ∷ ("event_ids", arr (from_list (str "one" ∷ [])))
    ∷ [])

merges :
    merge_face_episode test_python
      (current_fields test_python
        (at_time (seconds 50))
        (episode_from (test_python.isoformat (seconds 40)) []))
      absence
      (seconds 50)
      db
    ≡ (ok first_episode, db)
unfolding merge_face_episode episode_from contains filter get truthy int_of ◌>>=◌
merges = refl

abbrev episodes_after : List Fields
episodes_after =
    put_episode (test_python.isoformat (seconds 40))
      (episode_from (test_python.isoformat (seconds 40)) []) first_episode []

one_episode : episodes_after ≡ first_episode ∷ []
unfolding episode_from
one_episode = refl

measured : longest_of test_python (at_time (seconds 50)) episodes_after db ≡ (ok (pos 6000), db)
unfolding longest_of longest episode_from get truthy int_of ◌>>=◌
measured = refl

first_turn :
    turn_number test_python
      (first_of (face_violations "face_absent" live_interview))
      live_interview.transcript
    ≡ ok (pos 1)
unfolding turn_number face_violations filter get truthy int_of
first_turn = refl

face_event-recorded_example :
    let (result, db') =
      record_proctoring_event test_python (at_time (seconds 50)) 5 "connection" 4 absence db in
    let last = leb 30000 6000 in
    (s' : InterviewSession) × (result
      ≡ ok (record {
        appended = is_empty (face_violations "face_absent" live_interview);
        recorded = true;
        occurrence_count = length episodes_after;
        terminated = last;
        termination_reason =
            if last then str (reason_of test_python (at_time (seconds 50)) "face_absent") else null;
        status = s'.status;
      }))
    × (session_by_id db' 5 ≡ some s')
    × (length (face_violations "face_absent" s') ≡ 1)
    × (contains "one" (event_ids test_python (face_violations "face_absent" s')) ≡ true)
    × (filter (λ j. not (has_type "face_absent" j)) s'.violations
        ≡ filter (λ j. not (has_type "face_absent" j)) live_interview.violations)
    × (s'.status ≡ (if last then SessionStatus.terminated else SessionStatus.in_progress))
    × (s'.active_connection_id ≡ (if last then none else some "connection"))
    × (enrollment_by_id db' 4 ≡ (
        if last
        then Option.map (terminated_at (seconds 50)) (enrollment_by_id db 4)
        else enrollment_by_id db 4))
face_event-recorded_example =
    face_event-recorded test_python (at_time (seconds 50)) 5 "connection" 4 absence db
      live_interview stored refl (5000, 30000) refl refl refl [] (pos 0) no_episodes no_previous
      news first_episode (pos 6000) (pos 1) merges measured first_turn refl

face-changes_example :
    ((record_proctoring_event test_python (at_time (seconds 50)) 5 "connection" 4 absence db).1
      ≡ db)
    ⊎ ((s : InterviewSession) × IsAllowed 5 "connection" 4 absence db s)
face-changes_example = face-changes test_python (at_time (seconds 50)) 5 "connection" 4 absence db

-- A terminated interview that is initialized again.
abbrev over : InterviewSession
over = record new_interview { status = SessionStatus.terminated; disconnect_count = 3 }

abbrev over_db : Db
over_db = database EnrollmentStatus.terminated over

over_stored : session_by_id over_db 5 ≡ some over
unfolding session_by_id find
over_stored = refl

over_enrollment : enrollment_by_id over_db 4 ≡ some (enrollment EnrollmentStatus.terminated)
unfolding enrollment_by_id find
over_enrollment = refl

over_begun : find (of_enrollment 4) over_db.interview_sessions ≡ some over
unfolding find
over_begun = refl

abbrev interview_context : InterviewContext
interview_context = record {
  interview_started_at = none;
  resume_parsed = null;
  candidate_name = "Chandra";
  role_name = "Engineer";
  jd_analysis = null;
  interview_plan = assessment.interview_plan;
  interview_duration_mins = 30;
  company_name = "Example";
}

over_loaded : load_interview_context 4 over_db ≡ (ok (some interview_context), over_db)
unfolding load_interview_context enrollment_by_id find ◌>>=◌
over_loaded = refl

initialize-starts_example :
    let (result, db') = initialize_interview_context (at_time (seconds 9)) 4 over_db in
    (result ≡ ok (interview_context, over))
    × (session_by_id db' 5
        ≡ some (record over {
          status = SessionStatus.in_progress;
          reconnect_deadline = none;
          last_updated_at = seconds 9;
        }))
    × (enrollment_by_id db' 4
        ≡ some (record (enrollment EnrollmentStatus.terminated) {
          status = EnrollmentStatus.in_progress;
          updated_at = seconds 9;
        }))
initialize-starts_example =
    initialize-starts (at_time (seconds 9)) over_db (enrollment EnrollmentStatus.terminated) over
      interview_context over_enrollment over_loaded over_begun over_stored
