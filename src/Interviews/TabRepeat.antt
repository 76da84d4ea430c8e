-- ===== src/Interviews/TabRepeat.antt =====
-- Reports of a tab switch event that was reported before.
use mathlib.Core.Path.{subst}
use i_bot_core_api_service.Prelude.{
  ◌≡◌, refl, sym, ap, String, true, false, some, contains, ◌==◌, nat_eq, string_eq, Bool-cases,
  Option-cases, inl, inr,
}
use i_bot_core_api_service.Db.{Db, Uuid, Time, InterviewSession, Result, err, Result-cases}
use i_bot_core_api_service.Repositories.Env.{Env}
use i_bot_core_api_service.Repositories.Statements.{session_by_id}
use i_bot_core_api_service.Violations.{Python, event_ids}
use i_bot_core_api_service.Interviews.TabSwitch.{
  TabSwitch, tab_violations, is_stale, first_of, turn_number, record_tab_switch,
}
use i_bot_core_api_service.Interviews.TabSwitches.{
  switch-missing, switch-foreign, switch-stale, switch-duplicate, switch-unparsed,
}
use i_bot_core_api_service.Interviews.TabCounts.{tab_switch-counted}

module _ (py : Python) (id : Uuid) (connection_id : String) (ca_id event_id : Uuid)
    (env again : Env) (t u : Time) (set : (py.uuid_text event_id == "") ≡ false) (db : Db) where
  -- The state after the first report of an event.
  abbrev first_report : Db
  first_report = (record_tab_switch py env id connection_id ca_id event_id t db).1

  repeat-counted :
      (s' : InterviewSession)
      → (s'.candidate_assessment_id == ca_id) ≡ true
      → session_by_id first_report id ≡ some s'
      → contains (py.uuid_text event_id) (event_ids py (tab_violations s')) ≡ true
      → (record_tab_switch py again id connection_id ca_id event_id u first_report).1 ≡ first_report
  repeat-counted s' own stored seen = elim (Bool-cases (is_stale connection_id s')) [
    | inl stale ↦
        rw
          (switch-stale py id connection_id ca_id event_id first_report s' stored own again u stale)
          refl
    | inr current ↦
        rw
          (switch-duplicate py id connection_id ca_id event_id first_report s' stored own current
            again u seen)
          refl
  ]

  repeat-unchanged :
      (r : Result TabSwitch)
      → record_tab_switch py env id connection_id ca_id event_id t db ≡ (r, db)
      → record_tab_switch py again id connection_id ca_id event_id u db ≡ (r, db)
      → (record_tab_switch py again id connection_id ca_id event_id u first_report).1 ≡ first_report
  repeat-unchanged r h k =
      subst (λ x. (record_tab_switch py again id connection_id ca_id event_id u x).1 ≡ x)
        (sym (ap (λ p. p.1) h)) (ap (λ p. p.1) k)

  repeat-new :
      (s : InterviewSession)
      → session_by_id db id ≡ some s
      → (s.candidate_assessment_id == ca_id) ≡ true
      → is_stale connection_id s ≡ false
      → contains (py.uuid_text event_id) (event_ids py (tab_violations s)) ≡ false
      → (record_tab_switch py again id connection_id ca_id event_id u first_report).1 ≡ first_report
  repeat-new s stored own current new =
      elim (Result-cases (turn_number py (first_of (tab_violations s)) s.transcript)) [
        | inr (e, failed) ↦
            let fails =
              switch-unparsed py id connection_id ca_id event_id db s stored own current in
            repeat-unchanged (err e) (fails env t new e failed) (fails again u new e failed)
        | inl (turn, parsed) ↦
            let (s', result, row, same, count, seen, one, others, status, connection, enrollment) =
              tab_switch-counted py id connection_id ca_id event_id db s stored own current new turn
                parsed env t set in
            repeat-counted s' (rw same own) row seen
      ]

  -- Reporting one event twice is reporting it once, whatever the first report did: the second one,
  -- at any later time, leaves the database as it is.
  pub record_tab_switch_idem :
      (record_tab_switch py again id connection_id ca_id event_id u first_report).1 ≡ first_report
  record_tab_switch_idem = elim (Option-cases (session_by_id db id)) [
    | inl missing ↦
        let fails = switch-missing py id connection_id ca_id event_id db in
        repeat-unchanged _ (fails env t missing) (fails again u missing)
    | inr (s, stored) ↦ elim (Bool-cases (s.candidate_assessment_id == ca_id)) [
      | inr foreign ↦
          let fails = switch-foreign py id connection_id ca_id event_id db s stored in
          repeat-unchanged _ (fails env t foreign) (fails again u foreign)
      | inl own ↦ elim (Bool-cases (is_stale connection_id s)) [
        | inl stale ↦
            let same = switch-stale py id connection_id ca_id event_id db s stored own in
            repeat-unchanged _ (same env t stale) (same again u stale)
        | inr current ↦
            elim (Bool-cases (contains (py.uuid_text event_id) (event_ids py (tab_violations s)))) [
              | inl seen ↦
                  let same =
                    switch-duplicate py id connection_id ca_id event_id db s stored own current in
                  repeat-unchanged _ (same env t seen) (same again u seen)
              | inr new ↦ repeat-new s stored own current new
            ]
      ]
    ]
  ]
