-- ===== src/Interviews/FaceRecord.antt =====
-- The policy, the guards and the stored record of `record_proctoring_event`.
use Prim.Native.String as Text
use i_bot_core_api_service.Prelude.{
  ℕ, String, Bool, true, false, not, ◌&&◌, ◌||◌, Option, none, some, List, [], ◌∷◌, ◌++◌, map,
  length, filter, ltb, leb, ◌==◌, nat_eq, string_eq, if◌then◌else◌,
}
use i_bot_core_api_service.Json.{
  Json, Fields, ℤ, pos, bool, int, str, arr, obj, end, from_list, dict, get, truthy, leb_ℤ, max_ℤ,
}
use i_bot_core_api_service.Db.{
  Db, InterviewSession, SessionStatus, is_terminated, Exec, lift, pure, ◌>>=◌,
}
use i_bot_core_api_service.Repositories.Env.{Env}
use i_bot_core_api_service.Violations.{
  Python, text_of, as_fields, metadata, positive_int, is_text, has_type,
}
use i_bot_core_api_service.Interviews.TabSwitch.{or_else, first_of}
use i_bot_core_api_service.Interviews.Episodes.{FaceEvent, int_or_zero}

-- The dict that the method returns.
pub record FaceOutcome : Type 0 where
  pub appended : Bool
  pub recorded : Bool
  pub occurrence_count : ℕ
  pub terminated : Bool
  pub termination_reason : Json
  pub status : SessionStatus

-- FACE_PROCTORING_POLICIES: the milliseconds from which an event counts, and from which it ends the
-- interview.
abbrev pub face_policy : String → Option (ℕ × ℕ)
face_policy event_type =
    if event_type == "face_absent"
    then some (5000, 30000)
    else if event_type == "multiple_faces"
    then some (3000, 20000)
    else none

abbrev exceeds : Option ℤ → Option ℤ → Bool
exceeds (some a) (some b) = not (leb_ℤ a b)
exceeds _ _ = false

-- The evidence of an event that its type does not allow, or that is too short.
abbrev pub is_unqualified : ℕ → FaceEvent → Bool
is_unqualified minimum e =
    if ltb e.observed_duration_ms minimum
    then true
    else if e.source == "camera_state" && not (e.event_type == "face_absent")
    then true
    else if e.event_type == "face_absent" && not (e.max_face_count == 0)
    then true
    else if e.event_type == "multiple_faces" && ltb e.max_face_count 2
    then true
    else exceeds e.min_confidence e.max_confidence

abbrev pub is_empty : {A : Type 0} → List A → Bool
is_empty [] = true
is_empty (_ ∷ _) = false

unfoldable pub face_violations : String → InterviewSession → List Json
face_violations event_type s = filter (has_type event_type) s.violations

abbrev count_or : Option ℕ → ℕ → ℕ
count_or none n = n
count_or (some m) n = m

unfoldable pub stale_outcome : FaceEvent → InterviewSession → FaceOutcome
stale_outcome e s =
    let existing = face_violations e.event_type s in
    record {
      appended = false;
      recorded = false;
      occurrence_count =
          count_or (positive_int (get "occurrence_count" (metadata (first_of existing))))
            (length existing);
      terminated = is_terminated s.status;
      termination_reason = get "termination_reason" (metadata (first_of existing));
      status = s.status;
    }

-- The first episode that began at a time.
unfoldable pub episode_from : String → List Fields → Option Fields
episode_from started [] = none
episode_from started (fs ∷ rest) =
    if is_text started (get "condition_started_at" fs) then some fs else episode_from started rest

-- That episode replaced by another.
unfoldable pub replace_episode : String → Fields → List Fields → List Fields
replace_episode started episode [] = []
replace_episode started episode (fs ∷ rest) =
    if is_text started (get "condition_started_at" fs)
    then episode ∷ rest
    else fs ∷ replace_episode started episode rest

abbrev pub put_episode : String → Option Fields → Fields → List Fields → List Fields
put_episode started none episode episodes = episodes ++ episode ∷ []
put_episode started (some _) episode episodes = replace_episode started episode episodes

module _ (py : Python) (env : Env) where
  abbrev pub previous_duration : Option Fields → Exec Db ℤ
  previous_duration none = pure (pos 0)
  previous_duration (some fs) = lift (int_or_zero py (get "max_observed_duration_ms" fs))

  abbrev pub current_fields : Option Fields → Fields
  current_fields none = end
  current_fields (some fs) = fs

  -- `max(...)` over the episodes, of which there is one at least.
  unfoldable pub longest : ℤ → List Fields → Exec Db ℤ
  longest m [] = pure m
  longest m (fs ∷ rest) = do
    d ← lift (int_or_zero py (get "max_observed_duration_ms" fs))
    longest (max_ℤ m d) rest

  unfoldable pub longest_of : List Fields → Exec Db ℤ
  longest_of [] = pure (pos 0)
  longest_of (fs ∷ rest) = do
    d ← lift (int_or_zero py (get "max_observed_duration_ms" fs))
    longest d rest

  unfoldable pub first_recorded_at : Json → String
  first_recorded_at first = text_of py (
      or_else (get "first_recorded_at" (metadata first))
        (or_else (get "timestamp" (as_fields first)) (str (py.isoformat (env.utc_now 0)))))

  abbrev pub reason_of : String → String
  reason_of event_type = Text.◌++◌ event_type "_continuous_duration_exceeded"

  unfoldable pub face_metadata :
      String → FaceEvent → Json → ℕ × ℕ → List String → List Fields → ℤ → Fields
  face_metadata connection_id e first (minimum, limit) ids episodes longest =
      let terminated = leb limit e.observed_duration_ms in
      dict (
        ("source", str "browser_face_proctoring")
        ∷ ("connection_id", str connection_id)
        ∷ ("occurrence_count", int (pos (length episodes)))
        ∷ ("event_count", int (pos (length ids)))
        ∷ ("event_ids", arr (from_list (map str ids)))
        ∷ ("episodes", arr (from_list (map obj episodes)))
        ∷ ("first_recorded_at", str (first_recorded_at first))
        ∷ ("recorded_at", str (py.isoformat (env.utc_now 0)))
        ∷ ("last_condition_started_at", str (py.isoformat e.condition_started_at))
        ∷ ("max_observed_duration_ms", int longest)
        ∷ ("minimum_violation_duration_ms", int (pos minimum))
        ∷ ("termination_duration_ms", int (pos limit))
        ∷ (
          "termination_triggered",
          bool (terminated || truthy (get "termination_triggered" (metadata first))),
        )
        ∷ (
          "termination_reason",
          if terminated
              then str (reason_of e.event_type)
              else get "termination_reason" (metadata first),
        )
        ∷ ("affects_evaluation", bool true)
        ∷ ("review_status", str "server_qualified")
        ∷ ("raw_frames_uploaded", bool false)
        ∷ [])

  unfoldable pub face_record :
      String → FaceEvent → Json → ℤ → ℕ × ℕ → List String → List Fields → ℤ → Json
  face_record connection_id e first turn policy ids episodes longest = obj (
      dict (
        ("violation_id", str (Text.◌++◌ "proctoring:" e.event_type))
        ∷ ("turn_number", int turn)
        ∷ ("violation_type", str e.event_type)
        ∷ ("candidate_transcript", str "")
        ∷ ("severity", str "high")
        ∷ ("timestamp", str (first_recorded_at first))
        ∷ ("metadata", obj (face_metadata connection_id e first policy ids episodes longest))
        ∷ []))
