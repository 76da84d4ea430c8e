-- ===== src/Interviews/TabSwitches.antt =====
-- What `record_tab_switch` does on each of its branches.
use mathlib.Core.Option
use i_bot_core_api_service.Prelude.{
  ◌+◌, ◌≡◌, ◌∙◌, refl, String, true, false, none, some, [], ◌∷◌, ◌++◌, contains, leb, ◌==◌, nat_eq,
  string_eq, if◌then◌else◌, Bool-cases, inl, inr,
}
use i_bot_core_api_service.Json.{Json, ℤ}
use i_bot_core_api_service.Db.{
  Db, Uuid, Time, InterviewSession, SessionStatus, Error, ok, err, invalid_session_append,
  no_result_found, ◌>>=◌,
}
use i_bot_core_api_service.Repositories.Ending.{terminated_at}
use i_bot_core_api_service.Repositories.Env.{Env}
use i_bot_core_api_service.Repositories.Statements.{
  session_by_id, session_by_id-update_id, enrollment_by_id, enrollment_by_id-update,
}
use i_bot_core_api_service.Repositories.CandidateSession.{ended}
use i_bot_core_api_service.Violations.{
  Python, tab_switch, count_tabs, event_ids, replace_violation_type,
}
use i_bot_core_api_service.Interviews.Rows.{locked_session, with_violations}
use i_bot_core_api_service.Interviews.TabSwitch.{
  tab_violations, is_stale, unrecorded, first_of, turn_number, first_occurred_at, tab_record,
  terminate_session, terminated_row, store_tab_switch, record_tab_switch,
}

module _ (py : Python) (id : Uuid) (connection_id : String) (ca_id event_id : Uuid) (db : Db) where
  pub switch-missing :
      (env : Env) (t : Time)
      → session_by_id db id ≡ none
      → record_tab_switch py env id connection_id ca_id event_id t db ≡ (err no_result_found, db)
  unfolding record_tab_switch locked_session ◌>>=◌
  switch-missing env t h = rw h refl

  module _ (s : InterviewSession) (stored : session_by_id db id ≡ some s) where
    pub switch-foreign :
        (env : Env) (t : Time)
        → (s.candidate_assessment_id == ca_id) ≡ false
        → record_tab_switch py env id connection_id ca_id event_id t db
          ≡ (err invalid_session_append, db)
    unfolding record_tab_switch locked_session ◌>>=◌
    switch-foreign env t h = rw (stored, h) refl

    module _ (own : (s.candidate_assessment_id == ca_id) ≡ true) where
      pub switch-stale :
          (env : Env) (t : Time)
          → is_stale connection_id s ≡ true
          → record_tab_switch py env id connection_id ca_id event_id t db ≡ (ok (unrecorded s), db)
      unfolding record_tab_switch locked_session ◌>>=◌
      switch-stale env t stale = rw (stored, own, stale) refl

      module _ (current : is_stale connection_id s ≡ false) where
        pub switch-duplicate :
            (env : Env) (t : Time)
            → contains (py.uuid_text event_id) (event_ids py (tab_violations s)) ≡ true
            → record_tab_switch py env id connection_id ca_id event_id t db
              ≡ (ok (unrecorded s), db)
        unfolding record_tab_switch locked_session ◌>>=◌
        switch-duplicate env t seen = rw (stored, own, current, seen) refl

        pub switch-unparsed :
            (env : Env) (t : Time)
            → contains (py.uuid_text event_id) (event_ids py (tab_violations s)) ≡ false
            → (e : Error) → turn_number py (first_of (tab_violations s)) s.transcript ≡ err e
            → record_tab_switch py env id connection_id ca_id event_id t db ≡ (err e, db)
        unfolding record_tab_switch store_tab_switch locked_session ◌>>=◌
        switch-unparsed env t new e failed = rw (stored, own, current, new, failed) refl

        module _ (new : contains (py.uuid_text event_id) (event_ids py (tab_violations s)) ≡ false)
            (turn : ℤ)
            (parsed : turn_number py (first_of (tab_violations s)) s.transcript ≡ ok turn)
            (env : Env) (t : Time) where
          abbrev pub new_record : Json
          new_record =
              tab_record py turn (count_tabs s.violations + 1)
                (event_ids py (tab_violations s) ++ py.uuid_text event_id ∷ [])
                (first_occurred_at py (first_of (tab_violations s)) t) t

          abbrev pub counted_row : InterviewSession
          counted_row =
              with_violations env (replace_violation_type s.violations tab_switch new_record) s

          pub switch-counted :
              let (result, db') = record_tab_switch py env id connection_id ca_id event_id t db in
              let last = leb 5 (count_tabs s.violations + 1) in
              (result
                ≡ ok (record {
                  appended = elim (tab_violations s) [ [] ↦ true | _ ∷ _ ↦ false ];
                  recorded = true;
                  tab_switch_count = count_tabs s.violations + 1;
                  terminated = last;
                  status = if last then SessionStatus.terminated else s.status;
                }))
              × (session_by_id db' id
                  ≡ some (if last then terminated_row counted_row else counted_row))
              × (enrollment_by_id db' ca_id ≡ (
                  if last
                  then Option.map (terminated_at env.db_now) (enrollment_by_id db ca_id)
                  else enrollment_by_id db ca_id))
          unfolding record_tab_switch store_tab_switch terminate_session locked_session
              session_by_id enrollment_by_id ◌>>=◌
          switch-counted =
              let once =
                session_by_id-update_id
                  (with_violations env (replace_violation_type s.violations tab_switch new_record))
                  db id (λ x. refl) in
              elim (Bool-cases (leb 5 (count_tabs s.violations + 1))) [
                | inl last ↦
                    rw (stored, own, current, new, parsed, last)
                      (
                        refl,
                        session_by_id-update_id terminated_row
                              (record db { interview_sessions = _ }) id (λ x. refl)
                            ∙ rw once (rw stored refl),
                        enrollment_by_id-update (ended env) db ca_id (λ c. refl),
                      )
                | inr more ↦
                    rw (stored, own, current, new, parsed, more)
                      (refl, rw once (rw stored refl), refl)
              ]
