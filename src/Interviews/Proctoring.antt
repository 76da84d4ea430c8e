-- ===== src/Interviews/Proctoring.antt =====
-- `record_proctoring_event`.
use i_bot_core_api_service.Prelude.{
  ℕ, String, true, false, not, ◌&&◌, Option, none, some, List, length, contains, leb, ◌==◌, nat_eq,
  string_eq, if◌then◌else◌,
}
use i_bot_core_api_service.Json.{Json, Fields, pos, null, str, leb_ℤ}
use i_bot_core_api_service.Db.{
  Db, Uuid, InterviewSession, SessionStatus, Exec, invalid_session_append, lift, raise, pure, ◌>>=◌,
  ◌>>◌,
}
use i_bot_core_api_service.Repositories.Env.{Env}
use i_bot_core_api_service.Repositories.Statements.{has_id, update_sessions}
use i_bot_core_api_service.Violations.{Python, event_ids, replace_violation_type}
use i_bot_core_api_service.Interviews.Rows.{locked_session, with_violations}
use i_bot_core_api_service.Interviews.TabSwitch.{first_of, is_stale, turn_number, terminate_session}
use i_bot_core_api_service.Interviews.Episodes.{
  FaceEvent, with_id, face_episodes, merge_face_episode,
}
use i_bot_core_api_service.Interviews.FaceRecord.{
  FaceOutcome, face_policy, is_unqualified, is_empty, face_violations, stale_outcome, episode_from,
  put_episode, previous_duration, current_fields, longest_of, face_record, reason_of,
}

module _ (py : Python) (env : Env) where
  abbrev pub unrecorded_face : List Fields → List Json → InterviewSession → FaceOutcome
  unrecorded_face episodes existing s = record {
    appended = false;
    recorded = false;
    occurrence_count = if is_empty episodes then length existing else length episodes;
    terminated = false;
    termination_reason = null;
    status = s.status;
  }

  -- The part of the method that writes, once the episodes are read and the event is new or longer
  -- than before.
  unfoldable pub store_face :
      Uuid
      → String
      → Uuid
      → FaceEvent
      → ℕ × ℕ
      → List Fields
      → InterviewSession
      → Exec Db FaceOutcome
  unfolding update_sessions terminate_session
  store_face session_id connection_id ca_id e policy episodes s = do
    let existing = face_violations e.event_type s
    let started = py.isoformat e.condition_started_at
    let episode = episode_from started episodes
    let terminated = leb policy.1 e.observed_duration_ms
    merged ← merge_face_episode py (current_fields py env episode) e (env.utc_now 0)
    let merged_episodes = put_episode started episode merged episodes
    longest ← longest_of py env merged_episodes
    turn ← lift (turn_number py (first_of existing) s.transcript)
    update_sessions (has_id session_id) (
        with_violations env (
          replace_violation_type s.violations e.event_type (
            face_record py env connection_id e (first_of existing) turn policy
              (with_id py (py.uuid_text e.event_id) (event_ids py existing)) merged_episodes
              longest)))
    if terminated then terminate_session env session_id ca_id else pure tt
    pure (record {
      appended = is_empty existing;
      recorded = true;
      occurrence_count = length merged_episodes;
      terminated = terminated;
      termination_reason = if terminated then str (reason_of py env e.event_type) else null;
      status = if terminated then SessionStatus.terminated else s.status;
    })

  unfoldable pub record_live_face :
      Uuid → String → Uuid → FaceEvent → ℕ × ℕ → InterviewSession → Exec Db FaceOutcome
  record_live_face session_id connection_id ca_id e policy s = do
    let existing = face_violations e.event_type s
    episodes ← face_episodes py existing
    previous ←
        previous_duration py env (episode_from (py.isoformat e.condition_started_at) episodes)
    if contains (py.uuid_text e.event_id) (event_ids py existing)
          && leb_ℤ (pos e.observed_duration_ms) previous
        then pure (unrecorded_face episodes existing s)
        else store_face session_id connection_id ca_id e policy episodes s

  abbrev pub record_by_policy :
      Uuid → String → Uuid → FaceEvent → InterviewSession → Option (ℕ × ℕ) → Exec Db FaceOutcome
  record_by_policy session_id connection_id ca_id e s none = raise invalid_session_append
  record_by_policy session_id connection_id ca_id e s (some (minimum, limit)) =
      if is_unqualified minimum e
      then raise invalid_session_append
      else if is_stale connection_id s
      then pure (stale_outcome e s)
      else record_live_face session_id connection_id ca_id e (minimum, limit) s

  unfoldable pub record_proctoring_event : Uuid → String → Uuid → FaceEvent → Exec Db FaceOutcome
  record_proctoring_event session_id connection_id ca_id e = do
    s ← locked_session session_id
    if not (s.candidate_assessment_id == ca_id)
        then raise invalid_session_append
        else record_by_policy session_id connection_id ca_id e s (face_policy e.event_type)
