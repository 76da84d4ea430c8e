-- ===== src/Interviews/TabCounts.antt =====
-- `record_tab_switch` counts each event of the current connection once and ends the interview at the
-- fifth.

use mathlib.Core.Option
use i_bot_core_api_service.Prelude.{
  ◌+◌, ◌≡◌, refl, ap, String, true, false, not, none, some, [], ◌∷◌, length, filter, contains, leb,
  ◌==◌, nat_eq, string_eq, if◌then◌else◌, Bool-cases, inl, inr,
}
use i_bot_core_api_service.Json.{ℤ}
use i_bot_core_api_service.Db.{Db, Uuid, Time, InterviewSession, SessionStatus, ok}
use i_bot_core_api_service.Repositories.Ending.{terminated_at}
use i_bot_core_api_service.Repositories.Env.{Env}
use i_bot_core_api_service.Repositories.Statements.{session_by_id, enrollment_by_id}
use i_bot_core_api_service.Violations.{Python, has_type, tab_switch, count_tabs, event_ids}
use i_bot_core_api_service.Violations.Replace.{
  filter-replace_violation_type, others-replace_violation_type,
}
use i_bot_core_api_service.Violations.Ids.{contains-last}
use i_bot_core_api_service.Interviews.TabSwitch.{
  tab_violations, is_stale, first_of, turn_number, terminated_row, record_tab_switch,
}
use i_bot_core_api_service.Interviews.TabRecord.{
  tab_record-has_type, event_ids-tab_record, count_tabs-tab_record,
}
use i_bot_core_api_service.Interviews.TabSwitches.{switch-counted, new_record, counted_row}

module _ (py : Python) (id : Uuid) (connection_id : String) (ca_id event_id : Uuid) (db : Db)
    (s : InterviewSession) (stored : session_by_id db id ≡ some s)
    (own : (s.candidate_assessment_id == ca_id) ≡ true) (current : is_stale connection_id s ≡ false)
    (new : contains (py.uuid_text event_id) (event_ids py (tab_violations s)) ≡ false) (turn : ℤ)
    (parsed : turn_number py (first_of (tab_violations s)) s.transcript ≡ ok turn) (env : Env)
    (t : Time) (set : (py.uuid_text event_id == "") ≡ false) where
  -- The row that a counted event leaves, before a termination.
  abbrev pub stored_row : InterviewSession
  stored_row =
      counted_row py id connection_id ca_id event_id db s stored own current new turn parsed env t

  tabs_left :
      tab_violations stored_row
      ≡ new_record py id connection_id ca_id event_id db s stored own current new turn parsed env t
        ∷ []
  unfolding tab_violations
  tabs_left =
      filter-replace_violation_type tab_switch _
        (tab_record-has_type py turn (count_tabs s.violations + 1) _ _ t) s.violations

  event_kept : contains (py.uuid_text event_id) (event_ids py (tab_violations stored_row)) ≡ true
  event_kept = rw tabs_left (
      event_ids-tab_record py turn (count_tabs s.violations + 1) _ _ t (py.uuid_text event_id) set
        (contains-last (py.uuid_text event_id) (event_ids py (tab_violations s))))

  count_after : count_tabs stored_row.violations ≡ count_tabs s.violations + 1
  unfolding tab_violations
  count_after =
      count_tabs-tab_record py turn (count_tabs s.violations) _ _ t stored_row.violations tabs_left

  others_kept :
      filter (λ j. not (has_type tab_switch j)) stored_row.violations
      ≡ filter (λ j. not (has_type tab_switch j)) s.violations
  others_kept =
      others-replace_violation_type tab_switch _
        (tab_record-has_type py turn (count_tabs s.violations + 1) _ _ t) s.violations

  -- A tab switch event that is new to a live session, reported by its current connection, is
  -- counted: the session's tab switches are one more, kept in one record that lists the event, and
  -- the other violations are as they were. From the fifth on the session and its enrollment are
  -- terminated and the connection is unbound; below that status, connection and enrollment stay.
  -- (The record's turn number has to be readable as an integer.)
  pub tab_switch-counted :
      let (result, db') = record_tab_switch py env id connection_id ca_id event_id t db in
      let last = leb 5 (count_tabs s.violations + 1) in
      (s' : InterviewSession) × (result
        ≡ ok (record {
          appended = elim (tab_violations s) [ [] ↦ true | _ ∷ _ ↦ false ];
          recorded = true;
          tab_switch_count = count_tabs s.violations + 1;
          terminated = last;
          status = s'.status;
        }))
      × (session_by_id db' id ≡ some s')
      × (s'.candidate_assessment_id ≡ s.candidate_assessment_id)
      × (count_tabs s'.violations ≡ count_tabs s.violations + 1)
      × (contains (py.uuid_text event_id) (event_ids py (tab_violations s')) ≡ true)
      × (length (tab_violations s') ≡ 1)
      × (filter (λ j. not (has_type tab_switch j)) s'.violations
          ≡ filter (λ j. not (has_type tab_switch j)) s.violations)
      × (s'.status ≡ (if last then SessionStatus.terminated else s.status))
      × (s'.active_connection_id ≡ (if last then none else s.active_connection_id))
      × (enrollment_by_id db' ca_id ≡ (
          if last
          then Option.map (terminated_at env.db_now) (enrollment_by_id db ca_id)
          else enrollment_by_id db ca_id))
  unfolding tab_violations
  tab_switch-counted =
      let (result, row, enrollment) =
        switch-counted py id connection_id ca_id event_id db s stored own current new turn parsed
          env t in
      elim (Bool-cases (leb 5 (count_tabs s.violations + 1))) [
        | inl last ↦ rw last (
          terminated_row stored_row,
          rw last at result,
          rw last at row,
          refl,
          count_after,
          event_kept,
          ap length tabs_left,
          others_kept,
          refl,
          refl,
          rw last at enrollment,
        )
        | inr more ↦ rw more (
          stored_row,
          rw more at result,
          rw more at row,
          refl,
          count_after,
          event_kept,
          ap length tabs_left,
          others_kept,
          refl,
          refl,
          rw more at enrollment,
        )
      ]
