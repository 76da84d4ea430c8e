-- ===== src/Interviews/FaceEvents.antt =====
-- What `record_proctoring_event` refuses and ignores, and what it records.
use mathlib.Core.Option
use i_bot_core_api_service.Prelude.{
  ℕ, ◌≡◌, ◌∙◌, refl, String, true, false, ◌&&◌, some, List, length, contains, leb, ◌==◌, nat_eq,
  string_eq, if◌then◌else◌, Bool-cases, inl, inr,
}
use i_bot_core_api_service.Json.{Json, Fields, ℤ, pos, null, str, leb_ℤ}
use i_bot_core_api_service.Db.{
  Db, Uuid, InterviewSession, SessionStatus, ok, err, invalid_session_append, ◌>>=◌,
}
use i_bot_core_api_service.Repositories.Ending.{terminated_at}
use i_bot_core_api_service.Repositories.Env.{Env}
use i_bot_core_api_service.Repositories.Statements.{
  session_by_id, session_by_id-update_id, enrollment_by_id, enrollment_by_id-update,
}
use i_bot_core_api_service.Repositories.CandidateSession.{ended}
use i_bot_core_api_service.Violations.{Python, event_ids, replace_violation_type}
use i_bot_core_api_service.Interviews.Rows.{locked_session, with_violations}
use i_bot_core_api_service.Interviews.TabSwitch.{
  is_stale, first_of, turn_number, terminate_session, terminated_row,
}
use i_bot_core_api_service.Interviews.Episodes.{
  FaceEvent, with_id, face_episodes, merge_face_episode,
}
use i_bot_core_api_service.Interviews.FaceRecord.{
  face_policy, is_unqualified, is_empty, face_violations, stale_outcome, episode_from, put_episode,
  previous_duration, current_fields, longest_of, face_record, reason_of,
}
use i_bot_core_api_service.Interviews.Proctoring.{
  store_face, record_live_face, record_proctoring_event,
}

module _ (py : Python) (env : Env) (id : Uuid) (connection_id : String) (ca_id : Uuid)
    (e : FaceEvent) (db : Db) (s : InterviewSession) (stored : session_by_id db id ≡ some s)
    (own : (s.candidate_assessment_id == ca_id) ≡ true) where
  pub face-unqualified :
      (policy : ℕ × ℕ)
      → face_policy e.event_type ≡ some policy
      → is_unqualified policy.0 e ≡ true
      → record_proctoring_event py env id connection_id ca_id e db
        ≡ (err invalid_session_append, db)
  unfolding record_proctoring_event locked_session ◌>>=◌
  face-unqualified policy typed unqualified = rw (stored, own, typed, unqualified) refl

  module _ (policy : ℕ × ℕ) (typed : face_policy e.event_type ≡ some policy)
      (qualified : is_unqualified policy.0 e ≡ false) where
    pub face-stale :
        is_stale connection_id s ≡ true
        → record_proctoring_event py env id connection_id ca_id e db ≡ (ok (stale_outcome e s), db)
    unfolding record_proctoring_event locked_session ◌>>=◌
    face-stale stale = rw (stored, own, typed, qualified, stale) refl

    module _ (current : is_stale connection_id s ≡ false) (episodes : List Fields) (previous : ℤ)
        (read : face_episodes py (face_violations e.event_type s) db ≡ (ok episodes, db))
        (known : previous_duration py env
            (episode_from (py.isoformat e.condition_started_at) episodes)
            db
          ≡ (ok previous, db)) where
      module _
          (news : (contains
                (py.uuid_text e.event_id)
                (event_ids py (face_violations e.event_type s))
              && leb_ℤ (pos e.observed_duration_ms) previous)
            ≡ false)
          (merged : Fields) (longest turn : ℤ)
          (merges : merge_face_episode py
              (current_fields py env (episode_from (py.isoformat e.condition_started_at) episodes))
              e
              (env.utc_now 0)
              db
            ≡ (ok merged, db))
          (measured : longest_of py env
              (put_episode
                (py.isoformat e.condition_started_at)
                (episode_from (py.isoformat e.condition_started_at) episodes)
                merged
                episodes)
              db
            ≡ (ok longest, db))
          (parsed : turn_number py (first_of (face_violations e.event_type s)) s.transcript
            ≡ ok turn) where
        abbrev pub face_evidence : Json
        face_evidence =
            face_record py env connection_id e (first_of (face_violations e.event_type s)) turn
              policy
              (with_id py (py.uuid_text e.event_id) (event_ids py (face_violations e.event_type s)))
              (put_episode (py.isoformat e.condition_started_at)
                (episode_from (py.isoformat e.condition_started_at) episodes) merged episodes)
              longest

        abbrev pub face_row : InterviewSession
        face_row =
            with_violations env (replace_violation_type s.violations e.event_type face_evidence) s

        pub face-recorded :
            let (result, db') = record_proctoring_event py env id connection_id ca_id e db in
            let last = leb policy.1 e.observed_duration_ms in
            (result
              ≡ ok (record {
                appended = is_empty (face_violations e.event_type s);
                recorded = true;
                occurrence_count = length (
                    put_episode
                      (py.isoformat e.condition_started_at)
                      (episode_from (py.isoformat e.condition_started_at) episodes)
                      merged
                      episodes);
                terminated = last;
                termination_reason = if last then str (reason_of py env e.event_type) else null;
                status = if last then SessionStatus.terminated else s.status;
              }))
            × (session_by_id db' id ≡ some (if last then terminated_row face_row else face_row))
            × (enrollment_by_id db' ca_id ≡ (
                if last
                then Option.map (terminated_at env.db_now) (enrollment_by_id db ca_id)
                else enrollment_by_id db ca_id))
        unfolding record_proctoring_event record_live_face store_face terminate_session
            locked_session session_by_id enrollment_by_id ◌>>=◌
        face-recorded =
            let once =
              session_by_id-update_id
                (with_violations env
                  (replace_violation_type s.violations e.event_type face_evidence))
                db id (λ x. refl) in
            elim (Bool-cases (leb policy.1 e.observed_duration_ms)) [
              | inl last ↦
                  rw
                    (
                      stored, own, typed, qualified, current, read, known, news, merges, measured,
                      parsed, last,
                    )
                    (
                      refl,
                      session_by_id-update_id terminated_row (record db { interview_sessions = _ })
                            id (λ x. refl)
                          ∙ rw once (rw stored refl),
                      enrollment_by_id-update (ended env) db ca_id (λ c. refl),
                    )
              | inr more ↦
                  rw
                    (
                      stored, own, typed, qualified, current, read, known, news, merges, measured,
                      parsed, more,
                    )
                    (refl, rw once (rw stored refl), refl)
            ]
