-- ===== src/Tests/Interviews.antt =====
-- Tab switches and violation records at concrete inputs.
use mathlib.Core.Option
use i_bot_core_api_service.Prelude.{
  ◌+◌, ◌≡◌, refl, true, false, not, none, some, [], ◌∷◌, length, filter, contains, string_eq, leb,
  max_all, if◌then◌else◌,
}
use i_bot_core_api_service.Json.{
  Json, Fields, pos, int, str, arr, obj, from_list, dict, get, truthy,
}
use i_bot_core_api_service.Db.{Db, InterviewSession, EnrollmentStatus, SessionStatus, ok, find}
use i_bot_core_api_service.Repositories.Ending.{terminated_at}
use i_bot_core_api_service.Repositories.Statements.{session_by_id, enrollment_by_id}
use i_bot_core_api_service.Violations.{
  has_type, tab_switch, count_tabs, declared_counts, metadata, positive_int, event_ids,
  event_values, text_or_empty, int_of, any_with_id, append_unique, replace_violation_type,
}
use i_bot_core_api_service.Violations.Replace.{replace_violation_type_lem}
use i_bot_core_api_service.Interviews.TabSwitch.{
  tab_violations, first_of, turn_number, record_tab_switch,
}
use i_bot_core_api_service.Interviews.TabCounts.{tab_switch-counted}
use i_bot_core_api_service.Interviews.TabRepeat.{record_tab_switch_idem}
use i_bot_core_api_service.Tests.Data.{seconds, test_python, at_time, live_interview, database}

-- A record of four tab switches, and one of another kind.
abbrev four : Json
four = obj (
    dict (
      ("violation_type", str "tab_switch")
      ∷ ("turn_number", int (pos 2))
      ∷ (
        "metadata",
        obj (
            dict (
              ("occurrence_count", int (pos 4))
              ∷ ("event_ids", arr (from_list (str "first" ∷ [])))
              ∷ [])),
      )
      ∷ []))

abbrev other : Json
other = obj (dict (("violation_type", str "face_absent") ∷ []))

abbrev switched : InterviewSession
switched = record live_interview { violations = other ∷ four ∷ [] }

abbrev db : Db
db = database EnrollmentStatus.in_progress switched

stored : session_by_id db 5 ≡ some switched
unfolding session_by_id find
stored = refl

new_event : contains "one" (event_ids test_python (tab_violations switched)) ≡ false
unfolding contains event_ids event_values text_or_empty tab_violations filter has_type metadata get
    truthy
new_event = refl

parsed :
    turn_number test_python (first_of (tab_violations switched)) switched.transcript ≡ ok (pos 2)
unfolding turn_number tab_violations filter has_type get truthy int_of
parsed = refl

four_tabs : count_tabs switched.violations ≡ 4
unfolding count_tabs declared_counts filter has_type metadata get positive_int max_all
four_tabs = refl

tab_switch-counted_example :
    let (result, db') =
      record_tab_switch test_python (at_time (seconds 50)) 5 "connection" 4 1 (seconds 49) db in
    let last = leb 5 (count_tabs switched.violations + 1) in
    (s' : InterviewSession) × (result
      ≡ ok (record {
        appended = elim (tab_violations switched) [ [] ↦ true | _ ∷ _ ↦ false ];
        recorded = true;
        tab_switch_count = count_tabs switched.violations + 1;
        terminated = last;
        status = s'.status;
      }))
    × (session_by_id db' 5 ≡ some s')
    × (s'.candidate_assessment_id ≡ 4)
    × (count_tabs s'.violations ≡ count_tabs switched.violations + 1)
    × (contains "one" (event_ids test_python (tab_violations s')) ≡ true)
    × (length (tab_violations s') ≡ 1)
    × (filter (λ j. not (has_type tab_switch j)) s'.violations
        ≡ filter (λ j. not (has_type tab_switch j)) switched.violations)
    × (s'.status ≡ (if last then SessionStatus.terminated else SessionStatus.in_progress))
    × (s'.active_connection_id ≡ (if last then none else some "connection"))
    × (enrollment_by_id db' 4 ≡ (
        if last
        then Option.map (terminated_at (seconds 50)) (enrollment_by_id db 4)
        else enrollment_by_id db 4))
tab_switch-counted_example =
    tab_switch-counted test_python 5 "connection" 4 1 db switched stored refl refl new_event (pos 2)
      parsed (at_time (seconds 50)) (seconds 49) refl

record_tab_switch_idem_example :
    let db' =
      (record_tab_switch test_python (at_time (seconds 50)) 5 "connection" 4 1 (seconds 49) db).1 in
    (record_tab_switch test_python (at_time (seconds 60)) 5 "connection" 4 1 (seconds 49) db').1
    ≡ db'
record_tab_switch_idem_example =
    record_tab_switch_idem test_python 5 "connection" 4 1 (at_time (seconds 50))
      (at_time (seconds 60)) (seconds 49) (seconds 49) refl db

four-has_type : has_type "tab_switch" four ≡ true
unfolding has_type get
four-has_type = refl

replace_violation_type_lem_example :
    (filter
        (has_type "tab_switch")
        (replace_violation_type (other ∷ four ∷ four ∷ []) "tab_switch" four)
      ≡ four ∷ [])
    × (filter
          (λ j. not (has_type "tab_switch" j))
          (replace_violation_type (other ∷ four ∷ four ∷ []) "tab_switch" four)
        ≡ filter (λ j. not (has_type "tab_switch" j)) (other ∷ four ∷ four ∷ []))
replace_violation_type_lem_example =
    replace_violation_type_lem "tab_switch" four four-has_type (other ∷ four ∷ four ∷ [])

abbrev turn : Fields
turn = dict (("turn_id", str "t-2") ∷ [])

abbrev first_turn : Json
first_turn = obj (dict (("turn_id", str "t-1") ∷ []))

appended :
    append_unique test_python "turn_id" (first_turn ∷ []) turn
    ≡ ok (first_turn ∷ obj turn ∷ [], true)
unfolding append_unique any_with_id text_or_empty get truthy
appended = refl
