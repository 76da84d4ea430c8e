-- ===== src/Interviews/FaceCounts.antt =====
-- A recorded proctoring event keeps one record of its type.
use mathlib.Core.Option
use i_bot_core_api_service.Prelude.{
  ℕ, ◌≡◌, refl, ap, String, true, false, not, ◌&&◌, none, some, List, [], ◌∷◌, ◌++◌, length, filter,
  contains, leb, ◌==◌, nat_eq, string_eq, if◌then◌else◌, ==_self, Bool-cases, inl, inr,
}
use i_bot_core_api_service.Json.{Json, Fields, ℤ, pos, null, str, get, leb_ℤ}
use i_bot_core_api_service.Db.{Db, Uuid, InterviewSession, SessionStatus, ok}
use i_bot_core_api_service.Repositories.Ending.{terminated_at}
use i_bot_core_api_service.Repositories.Env.{Env}
use i_bot_core_api_service.Repositories.Statements.{session_by_id, enrollment_by_id}
use i_bot_core_api_service.Violations.{Python, metadata, has_type, event_ids, event_values}
use i_bot_core_api_service.Violations.Replace.{
  filter-replace_violation_type, others-replace_violation_type,
}
use i_bot_core_api_service.Violations.Ids.{
  to_list-from_list, texts-of-strings, contains-append, contains-last, add_all-contains,
}
use i_bot_core_api_service.Interviews.TabSwitch.{is_stale, first_of, turn_number, terminated_row}
use i_bot_core_api_service.Interviews.Episodes.{
  FaceEvent, with_id, face_episodes, merge_face_episode,
}
use i_bot_core_api_service.Interviews.FaceRecord.{
  face_policy, is_unqualified, is_empty, face_violations, episode_from, put_episode,
  previous_duration, current_fields, longest_of, face_metadata, face_record, reason_of,
}
use i_bot_core_api_service.Interviews.Proctoring.{record_proctoring_event}
use i_bot_core_api_service.Interviews.FaceEvents.{face-recorded, face_evidence, face_row}

module _ (py : Python) (env : Env) (id : Uuid) (connection_id : String) (ca_id : Uuid)
    (e : FaceEvent) (db : Db) (s : InterviewSession) (stored : session_by_id db id ≡ some s)
    (own : (s.candidate_assessment_id == ca_id) ≡ true) (policy : ℕ × ℕ)
    (typed : face_policy e.event_type ≡ some policy) (qualified : is_unqualified policy.0 e ≡ false)
    (current : is_stale connection_id s ≡ false) (episodes : List Fields) (previous : ℤ)
    (read : face_episodes py (face_violations e.event_type s) db ≡ (ok episodes, db))
    (known : previous_duration py env
        (episode_from (py.isoformat e.condition_started_at) episodes)
        db
      ≡ (ok previous, db))
    (news : (contains (py.uuid_text e.event_id) (event_ids py (face_violations e.event_type s))
        && leb_ℤ (pos e.observed_duration_ms) previous)
      ≡ false)
    (merged : Fields) (longest turn : ℤ)
    (merges : merge_face_episode py
        (current_fields py env (episode_from (py.isoformat e.condition_started_at) episodes))
        e
        (env.utc_now 0)
        db
      ≡ (ok merged, db))
    (measured : longest_of py env
        (put_episode
          (py.isoformat e.condition_started_at)
          (episode_from (py.isoformat e.condition_started_at) episodes)
          merged
          episodes)
        db
      ≡ (ok longest, db))
    (parsed : turn_number py (first_of (face_violations e.event_type s)) s.transcript ≡ ok turn)
    (set : (py.uuid_text e.event_id == "") ≡ false) where
  abbrev pub evidence : Json
  evidence =
      face_evidence py env id connection_id ca_id e db s stored own policy typed qualified current
        episodes previous read known news merged longest turn merges measured parsed

  abbrev pub recorded_row : InterviewSession
  recorded_row =
      face_row py env id connection_id ca_id e db s stored own policy typed qualified current
        episodes previous read known news merged longest turn merges measured parsed

  evidence-has_type : has_type e.event_type evidence ≡ true
  unfolding has_type face_record get
  evidence-has_type = ==_self e.event_type

  evidence-metadata :
      metadata evidence
      ≡ face_metadata py env connection_id e
          (first_of (face_violations e.event_type s))
          policy
          (with_id py (py.uuid_text e.event_id) (event_ids py (face_violations e.event_type s)))
          (put_episode
            (py.isoformat e.condition_started_at)
            (episode_from (py.isoformat e.condition_started_at) episodes)
            merged
            episodes)
          longest
  unfolding metadata face_record get
  evidence-metadata = refl

  contains-with_id :
      (ids : List String)
      → contains (py.uuid_text e.event_id) (with_id py (py.uuid_text e.event_id) ids) ≡ true
  contains-with_id ids = elim (Bool-cases (contains (py.uuid_text e.event_id) ids)) [
    | inl old ↦ rw old old
    | inr new ↦ rw new (contains-last (py.uuid_text e.event_id) ids)
  ]

  evidence_left : face_violations e.event_type recorded_row ≡ evidence ∷ []
  unfolding face_violations
  evidence_left = filter-replace_violation_type e.event_type evidence evidence-has_type s.violations

  evidence_ids :
      contains (py.uuid_text e.event_id) (event_ids py (face_violations e.event_type recorded_row))
      ≡ true
  unfolding event_ids event_values face_metadata get
  evidence_ids =
      rw (evidence_left, evidence-metadata)
        (rw (to_list-from_list, texts-of-strings py)
          (add_all-contains (py.uuid_text e.event_id) (_ ++ _ ∷ []) [] set (
            contains-append (py.uuid_text e.event_id) _ _
              (contains-with_id (event_ids py (face_violations e.event_type s))))))

  -- A qualified event from the current connection of a live session, new or longer than before, is
  -- recorded: the session keeps one record of its type, which lists the event, the other violations
  -- are as they were, and the count is the number of episodes. If the event lasted as long as the
  -- policy's limit, the session and its enrollment are terminated and the connection is unbound;
  -- otherwise status, connection and enrollment stay. (The numbers of earlier records have to be
  -- readable as integers.)
  pub face_event-recorded :
      let (result, db') = record_proctoring_event py env id connection_id ca_id e db in
      let last = leb policy.1 e.observed_duration_ms in
      (s' : InterviewSession) × (result
        ≡ ok (record {
          appended = is_empty (face_violations e.event_type s);
          recorded = true;
          occurrence_count = length (
              put_episode
                (py.isoformat e.condition_started_at)
                (episode_from (py.isoformat e.condition_started_at) episodes)
                merged
                episodes);
          terminated = last;
          termination_reason = if last then str (reason_of py env e.event_type) else null;
          status = s'.status;
        }))
      × (session_by_id db' id ≡ some s')
      × (length (face_violations e.event_type s') ≡ 1)
      × (contains (py.uuid_text e.event_id) (event_ids py (face_violations e.event_type s')) ≡ true)
      × (filter (λ j. not (has_type e.event_type j)) s'.violations
          ≡ filter (λ j. not (has_type e.event_type j)) s.violations)
      × (s'.status ≡ (if last then SessionStatus.terminated else s.status))
      × (s'.active_connection_id ≡ (if last then none else s.active_connection_id))
      × (enrollment_by_id db' ca_id ≡ (
          if last
          then Option.map (terminated_at env.db_now) (enrollment_by_id db ca_id)
          else enrollment_by_id db ca_id))
  unfolding face_violations
  face_event-recorded =
      let (result, row, enrollment) =
        face-recorded py env id connection_id ca_id e db s stored own policy typed qualified current
          episodes previous read known news merged longest turn merges measured parsed in
      let others =
        others-replace_violation_type e.event_type evidence evidence-has_type s.violations in
      elim (Bool-cases (leb policy.1 e.observed_duration_ms)) [
        | inl last ↦ rw last (
          terminated_row recorded_row,
          rw last at result,
          rw last at row,
          ap length evidence_left,
          evidence_ids,
          others,
          refl,
          refl,
          rw last at enrollment,
        )
        | inr more ↦ rw more (
          recorded_row,
          rw more at result,
          rw more at row,
          ap length evidence_left,
          evidence_ids,
          others,
          refl,
          refl,
          rw more at enrollment,
        )
      ]
