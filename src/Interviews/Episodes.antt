-- ===== src/Interviews/Episodes.antt =====
-- Episodes of face events: `_face_episodes` and `_merge_face_episode`.
use i_bot_core_api_service.Prelude.{
  ℕ, String, not, Option, none, some, List, [], ◌∷◌, ◌++◌, map, filter, contains, ◌==◌, string_eq,
  if◌then◌else◌,
}
use i_bot_core_api_service.Json.{
  Json, Fields, ℤ, pos, null, int, real, str, arr, obj, to_list, from_list, dict, get, truthy,
  min_ℤ, max_ℤ,
}
use i_bot_core_api_service.Db.{Db, Uuid, Time, Exec, Result, lift, pure, ◌>>=◌}
use i_bot_core_api_service.Violations.{
  Python, text_of, int_of, as_fields, metadata, is_text, event_ids,
}
use i_bot_core_api_service.Interviews.TabSwitch.{or_else, raise_none}

-- The body of a report (RecordProctoringEventRequest).
pub record FaceEvent : Type 0 where
  pub event_id : Uuid
  pub event_type : String
  pub condition_started_at : Time
  pub observed_duration_ms : ℕ
  pub sample_count : ℕ
  pub max_face_count : ℕ
  pub min_confidence : Option ℤ
  pub max_confidence : Option ℤ
  pub source : String
  pub detector_version : String
  pub model_name : String

abbrev dicts : List Json → List Fields
dicts [] = []
dicts (obj fs ∷ rest) = fs ∷ dicts rest
dicts (_ ∷ rest) = dicts rest

-- `None` or a float.
abbrev pub confidence : Option ℤ → Json
confidence none = null
confidence (some c) = real c

module _ (py : Python) where
  -- `int(value or 0)`
  abbrev pub int_or_zero : Json → Result ℤ
  int_or_zero j = raise_none (int_of py (or_else j (int (pos 0))))

  -- `str(value or default)`
  abbrev pub text_or_default : Json → String → String
  text_or_default j default = text_of py (or_else j (str default))

  -- The episode of a legacy record, which has one event.
  unfoldable pub legacy_episode : Json → String → Exec Db Fields
  legacy_episode violation started = do
    let m = metadata violation
    let recorded = text_of py (
        or_else (get "recorded_at" m)
          (or_else (get "timestamp" (as_fields violation)) (str started)))
    duration ← lift (int_or_zero (get "observed_duration_ms" m))
    samples ← lift (int_or_zero (get "sample_count" m))
    faces ← lift (int_or_zero (get "max_face_count" m))
    pure (
        dict (
          ("condition_started_at", str started)
          ∷ ("first_recorded_at", str recorded)
          ∷ ("last_recorded_at", str recorded)
          ∷ ("max_observed_duration_ms", int duration)
          ∷ ("sample_count", int samples)
          ∷ ("max_face_count", int faces)
          ∷ ("min_confidence", get "min_confidence" m)
          ∷ ("max_confidence", get "max_confidence" m)
          ∷ ("source", str (text_or_default (get "source" m) "unknown"))
          ∷ ("detector_version", str (text_or_default (get "detector_version" m) "unknown"))
          ∷ ("model_name", str (text_or_default (get "model_name" m) "unknown"))
          ∷ ("event_ids", arr (from_list (map str (event_ids py (violation ∷ [])))))
          ∷ []))

  abbrev legacy_episodes : Json → Exec Db (List Fields)
  legacy_episodes violation =
      let started = text_of py (
        or_else (get "condition_started_at" (metadata violation))
          (or_else (get "timestamp" (as_fields violation)) (str ""))) in
      if started == ""
      then pure []
      else (do episode ← legacy_episode violation started; pure (episode ∷ []))

  -- The episodes of one record: its own list, or, where that is absent or empty, its legacy fields.
  abbrev pub record_episodes : Json → Json → Exec Db (List Fields)
  record_episodes violation (arr raw) =
      if truthy (arr raw) then pure (dicts (to_list raw)) else legacy_episodes violation
  record_episodes violation _ = legacy_episodes violation

  -- `_face_episodes`
  unfoldable pub face_episodes : List Json → Exec Db (List Fields)
  face_episodes [] = pure []
  face_episodes (violation ∷ rest) = do
    episodes ← record_episodes violation (get "episodes" (metadata violation))
    later ← face_episodes rest
    pure (episodes ++ later)

  -- `isinstance(value, int | float) and not isinstance(value, bool)`, as a float.
  abbrev as_float : Json → Option ℤ
  as_float (int z) = some (py.to_float z)
  as_float (real z) = some z
  as_float _ = none

  abbrev combine : (ℤ → ℤ → ℤ) → Option ℤ → Option ℤ → Option ℤ
  combine pick none c = c
  combine pick (some a) none = some a
  combine pick (some a) (some c) = some (pick a c)

  abbrev episode_ids : Json → List String
  episode_ids (arr raw) = filter (λ s. not (s == "")) (map (text_of py) (to_list raw))
  episode_ids _ = []

  abbrev pub with_id : String → List String → List String
  with_id id ids = if contains id ids then ids else ids ++ id ∷ []

  -- `_merge_face_episode`, where no episode is the empty dict.
  unfoldable pub merge_face_episode : Fields → FaceEvent → Time → Exec Db Fields
  merge_face_episode current e recorded_at = do
    duration ← lift (int_or_zero (get "max_observed_duration_ms" current))
    samples ← lift (int_or_zero (get "sample_count" current))
    faces ← lift (int_or_zero (get "max_face_count" current))
    pure (
        dict (
          ("condition_started_at", str (py.isoformat e.condition_started_at))
          ∷ (
            "first_recorded_at",
            str (text_or_default (get "first_recorded_at" current) (py.isoformat recorded_at)),
          )
          ∷ ("last_recorded_at", str (py.isoformat recorded_at))
          ∷ ("max_observed_duration_ms", int (max_ℤ duration (pos e.observed_duration_ms)))
          ∷ ("sample_count", int (max_ℤ samples (pos e.sample_count)))
          ∷ ("max_face_count", int (max_ℤ faces (pos e.max_face_count)))
          ∷ (
            "min_confidence",
            confidence (combine min_ℤ (as_float (get "min_confidence" current)) e.min_confidence),
          )
          ∷ (
            "max_confidence",
            confidence (combine max_ℤ (as_float (get "max_confidence" current)) e.max_confidence),
          )
          ∷ (
            "source",
            str (
                if e.source == "camera_state"
                then "camera_state"
                else if is_text "camera_state" (get "source" current)
                then "camera_state"
                else e.source),
          )
          ∷ ("detector_version", str e.detector_version)
          ∷ ("model_name", str e.model_name)
          ∷ (
            "event_ids",
            arr (
                from_list (
                  map str
                    (with_id (py.uuid_text e.event_id) (episode_ids (get "event_ids" current))))),
          )
          ∷ []))
