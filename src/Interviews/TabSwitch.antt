-- ===== src/Interviews/TabSwitch.antt =====
-- `record_tab_switch`.
use i_bot_core_api_service.Prelude.{
  ℕ, ◌+◌, max, String, Bool, true, false, not, ◌||◌, Option, none, some, List, [], ◌∷◌, ◌++◌, map,
  length, filter, contains, leb, ◌==◌, nat_eq, string_eq, is_some_of, if◌then◌else◌,
}
use i_bot_core_api_service.Json.{
  Json, Fields, ℤ, pos, bool, int, str, arr, obj, end, from_list, dict, get, truthy,
}
use i_bot_core_api_service.Db.{
  Db, Uuid, Time, InterviewSession, SessionStatus, is_live, is_terminated, Exec, Result, ok, err,
  invalid_session_append, value_error, pure, raise, lift, ◌>>=◌, ◌>>◌,
}
use i_bot_core_api_service.Repositories.Env.{Env}
use i_bot_core_api_service.Repositories.Statements.{
  has_id, enrollment_has_id, update_sessions, update_enrollments,
}
use i_bot_core_api_service.Repositories.CandidateSession.{ended}
use i_bot_core_api_service.Violations.{
  Python, text_of, int_of, as_fields, metadata, has_type, tab_switch, count_tabs, event_ids,
  replace_violation_type,
}
use i_bot_core_api_service.Interviews.Rows.{locked_session, with_violations}

-- The dict that the method returns.
pub record TabSwitch : Type 0 where
  pub appended : Bool
  pub recorded : Bool
  pub tab_switch_count : ℕ
  pub terminated : Bool
  pub status : SessionStatus

-- `a or b` of JSON values.
abbrev pub or_else : Json → Json → Json
or_else a b = if truthy a then a else b

-- `items[0] if items else {}`
abbrev pub first_of : List Json → Json
first_of [] = obj end
first_of (j ∷ _) = j

-- MAX_ALLOWED_TAB_SWITCHES
abbrev pub max_allowed_tab_switches : ℕ
max_allowed_tab_switches = 5

unfoldable pub tab_violations : InterviewSession → List Json
tab_violations s = filter (has_type tab_switch) s.violations

-- The session is not live, or the report comes from another connection.
abbrev pub is_stale : String → InterviewSession → Bool
is_stale connection_id s =
    not (is_live s.status) || not (is_some_of s.active_connection_id connection_id)

abbrev pub unrecorded : InterviewSession → TabSwitch
unrecorded s = record {
  appended = false;
  recorded = false;
  tab_switch_count = count_tabs s.violations;
  terminated = is_terminated s.status;
  status = s.status;
}

abbrev pub raise_none : {A : Type 0} → Option A → Result A
raise_none none = err value_error
raise_none (some a) = ok a

module _ (py : Python) where
  -- `int(first_violation.get("turn_number") or max(1, len(session.transcript or [])))`
  unfoldable pub turn_number : Json → List Json → Result ℤ
  turn_number first transcript = raise_none (
      int_of py
        (or_else (get "turn_number" (as_fields first)) (int (pos (max 1 (length transcript))))))

  unfoldable pub first_occurred_at : Json → Time → String
  first_occurred_at first occurred_at = text_of py (
      or_else (get "first_occurred_at" (metadata first))
        (or_else (get "timestamp" (as_fields first)) (str (py.isoformat occurred_at))))

  unfoldable pub tab_metadata : ℕ → List String → String → Time → Fields
  tab_metadata occurrence_count event_ids first_occurred_at occurred_at = dict (
      ("source", str "browser_visibility")
      ∷ ("affects_evaluation", bool true)
      ∷ ("occurrence_count", int (pos occurrence_count))
      ∷ ("tab_switch_count", int (pos occurrence_count))
      ∷ ("event_ids", arr (from_list (map str event_ids)))
      ∷ ("first_occurred_at", str first_occurred_at)
      ∷ ("last_occurred_at", str (py.isoformat occurred_at))
      ∷ ("termination_threshold_count", int (pos max_allowed_tab_switches))
      ∷ ("termination_triggered", bool (leb max_allowed_tab_switches occurrence_count))
      ∷ [])

  unfoldable pub tab_record : ℤ → ℕ → List String → String → Time → Json
  tab_record turn occurrence_count event_ids first_occurred_at occurred_at = obj (
      dict (
        ("violation_id", str "proctoring:tab_switch")
        ∷ ("turn_number", int turn)
        ∷ ("violation_type", str tab_switch)
        ∷ ("candidate_transcript", str "")
        ∷ ("severity", str "low")
        ∷ ("timestamp", str first_occurred_at)
        ∷ ("metadata", obj (tab_metadata occurrence_count event_ids first_occurred_at occurred_at))
        ∷ []))

abbrev pub terminated_row : InterviewSession → InterviewSession
terminated_row s = record s {
  status = SessionStatus.terminated;
  reconnect_deadline = none;
  active_connection_id = none;
}

-- `_terminate_session`
unfoldable pub terminate_session : Env → Uuid → Uuid → Exec Db Unit
unfolding update_sessions update_enrollments
terminate_session env session_id ca_id = do
  update_sessions (has_id session_id) terminated_row
  update_enrollments (enrollment_has_id ca_id) (ended env)

module _ (py : Python) (env : Env) where
  -- The part of `record_tab_switch` that writes.
  unfoldable pub store_tab_switch : Uuid → Uuid → Uuid → Time → InterviewSession → Exec Db TabSwitch
  unfolding update_sessions terminate_session
  store_tab_switch session_id ca_id event_id occurred_at s = do
    let tabs = tab_violations s
    let occurrence_count = count_tabs s.violations + 1
    let terminated = leb max_allowed_tab_switches occurrence_count
    turn ← lift (turn_number py (first_of tabs) s.transcript)
    update_sessions (has_id session_id) (
        with_violations env (
          replace_violation_type s.violations tab_switch (
            tab_record py turn occurrence_count (event_ids py tabs ++ py.uuid_text event_id ∷ [])
              (first_occurred_at py (first_of tabs) occurred_at) occurred_at)))
    if terminated then terminate_session env session_id ca_id else pure tt
    pure (record {
      appended = elim tabs [ [] ↦ true | _ ∷ _ ↦ false ];
      recorded = true;
      tab_switch_count = occurrence_count;
      terminated = terminated;
      status = if terminated then SessionStatus.terminated else s.status;
    })

  unfoldable pub record_tab_switch : Uuid → String → Uuid → Uuid → Time → Exec Db TabSwitch
  record_tab_switch session_id connection_id ca_id event_id occurred_at = do
    s ← locked_session session_id
    if not (s.candidate_assessment_id == ca_id)
        then raise invalid_session_append
        else if is_stale connection_id s
        then pure (unrecorded s)
        else if contains (py.uuid_text event_id) (event_ids py (tab_violations s))
        then pure (unrecorded s)
        else store_tab_switch session_id ca_id event_id occurred_at s
