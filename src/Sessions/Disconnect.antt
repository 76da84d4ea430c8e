-- ===== src/Sessions/Disconnect.antt =====
-- What `record_disconnect` does, by whether the connection is the session's current one.
use mathlib.Core.Option
use i_bot_core_api_service.Prelude.{
  ◌+◌, max, ◌≡◌, ◌≢◌, ◌⊎◌, ap, All, List, [], ◌∷◌, Option, false, eq_iff, nat_beq_iff, ◌==◌, arith,
  refl, String, true, ◌&&◌, none, some, leb, ==_self, nat_eq, string_eq, is_some_of, if◌then◌else◌,
  Bool-cases, inl, inr,
}
use i_bot_core_api_service.Json.{ℤ, max_zero}
use i_bot_core_api_service.Db.{
  Db, Uuid, InterviewSession, SessionStatus, is_live, ok, find, find-and, update_where-none, ◌>>=◌,
}
use i_bot_core_api_service.Repositories.Ending.{terminated_at}
use i_bot_core_api_service.Repositories.Env.{Env}
use i_bot_core_api_service.Repositories.Statements.{
  has_id, session_by_id, session_by_id-update, enrollment_by_id, enrollment_by_id-update,
}
use i_bot_core_api_service.Repositories.CandidateSession as Repository
use i_bot_core_api_service.Repositories.CandidateSession.{is_current, dropped, ended}
use i_bot_core_api_service.Sessions.Outcome.{record_event}
use i_bot_core_api_service.Sessions.Connect.{record_disconnect, reconnect_window}

-- A session that a report about a connection is not about: it has another id, another connection or
-- none, or its status is neither initializing nor in progress.
abbrev pub IsOther : Uuid → String → InterviewSession → Type 0
IsOther id connection_id s =
    (s.id ≢ id)
    ⊎ (s.active_connection_id ≢ some connection_id)
    ⊎ (s.status ≢ SessionStatus.initializing) × (s.status ≢ SessionStatus.in_progress)

ended_status :
    (status : SessionStatus)
    → status ≢ SessionStatus.initializing
    → status ≢ SessionStatus.in_progress
    → is_live status ≡ false
ended_status SessionStatus.initializing h k = elim (h refl) [ ]
ended_status SessionStatus.in_progress h k = elim (k refl) [ ]
ended_status _ h k = refl

other_connection :
    (c : Option String) (connection_id : String)
    → c ≢ some connection_id
    → is_some_of c connection_id ≡ false
other_connection none connection_id h = refl
other_connection (some c) connection_id h = elim (Bool-cases (c == connection_id)) [
  | inl same ↦ elim (h (ap some ((eq_iff c connection_id).0 same))) [ ]
  | inr other ↦ other
]

other_row :
    (id : Uuid) (connection_id : String) (s : InterviewSession)
    → IsOther id connection_id s
    → is_current id connection_id s ≡ false
other_row id connection_id s (inl h) = elim (Bool-cases (s.id == id)) [
  | inl same ↦ elim (h ((nat_beq_iff s.id id).0 same)) [ ]
  | inr other ↦ rw other refl
]
other_row id connection_id s (inr (inl h)) =
    rw (other_connection s.active_connection_id connection_id h) (ground arith)
other_row id connection_id s (inr (inr (h, k))) = rw (ended_status s.status h k) (ground arith)

none_current :
    (id : Uuid) (connection_id : String) (ss : List InterviewSession)
    → All (IsOther id connection_id) ss
    → find (is_current id connection_id) ss ≡ none
unfolding find
none_current id connection_id [] all = refl
none_current id connection_id (s ∷ ss) all =
    rw (other_row id connection_id s all.0) (none_current id connection_id ss all.1)

-- A late report leaves a session alone: if no session of that id has that connection while it is
-- initializing or in progress, the answer is empty and nothing changes.
pub disconnect-stale :
    (env : Env) (db : Db) (id : Uuid) (connection_id : String) (ca_id : Uuid) (reason : String)
    (elapsed_secs : ℤ)
    → All (IsOther id connection_id) db.interview_sessions
    → record_disconnect env id connection_id ca_id reason elapsed_secs db ≡ (ok none, db)
unfolding record_disconnect Repository.record_disconnect ◌>>=◌
disconnect-stale env db id connection_id ca_id reason elapsed_secs others =
    let h = none_current id connection_id db.interview_sessions others in
    rw
      (
        h,
        update_where-none (is_current id connection_id)
            (dropped env (env.utc_now 0 + reconnect_window env) elapsed_secs) db.interview_sessions
            h,
      )
      refl

module _ (env : Env) (db : Db) (s : InterviewSession) (connection_id : String)
    (stored : session_by_id db s.id ≡ some s) (live : is_live s.status ≡ true)
    (current : s.active_connection_id ≡ some connection_id) where
  found_current : find (is_current s.id connection_id) db.interview_sessions ≡ some s
  unfolding session_by_id
  found_current =
      find-and (has_id s.id)
        (λ t. is_some_of t.active_connection_id connection_id && is_live t.status)
        db.interview_sessions s stored (rw (current, ==_self connection_id, live) refl)

  current_holds : (is_some_of s.active_connection_id connection_id && is_live s.status) ≡ true
  current_holds = rw (current, ==_self connection_id, live) refl

  -- A report about the current connection of a live session counts one more drop, keeps the larger
  -- elapsed time and unbinds the connection. The first two drops open a reconnect window of five
  -- minutes and leave the enrollment alone; from the third on the session and its enrollment are
  -- terminated, with no window. The answer is the session as it was stored.
  pub disconnect-current :
      (ca_id : Uuid) (reason : String) (elapsed_secs : ℤ)
      → let (result, db') = record_disconnect env s.id connection_id ca_id reason elapsed_secs db in
        let last = leb 3 (s.disconnect_count + 1) in
        let s' = record s {
          disconnect_count = s.disconnect_count + 1;
          status = if last then SessionStatus.terminated else SessionStatus.disconnected;
          total_elapsed_secs = max s.total_elapsed_secs (max_zero elapsed_secs);
          last_disconnected_at = some env.db_now;
          reconnect_deadline = if last then none else some (env.utc_now 0 + 300000000);
          active_connection_id = none;
          last_updated_at = env.db_now;
        } in
        (result ≡ ok (some s'))
        × (session_by_id db' s.id ≡ some s')
        × (enrollment_by_id db' s.candidate_assessment_id ≡ (
            if last
            then Option.map
                (terminated_at env.db_now)
                (enrollment_by_id db s.candidate_assessment_id)
            else enrollment_by_id db s.candidate_assessment_id))
  unfolding record_disconnect Repository.record_disconnect session_by_id enrollment_by_id
      record_event ◌>>=◌
  disconnect-current ca_id reason elapsed_secs =
      let rows =
        session_by_id-update
          (λ t. is_some_of t.active_connection_id connection_id && is_live t.status)
          (dropped env (env.utc_now 0 + reconnect_window env) elapsed_secs) db s (λ t. refl) stored
          current_holds in
      elim (Bool-cases (leb 3 (s.disconnect_count + 1))) [
        | inl last ↦
            rw (found_current, last)
              (
                refl,
                rw rows (rw last refl),
                enrollment_by_id-update (ended env) db s.candidate_assessment_id (λ t. refl),
              )
        | inr more ↦ rw (found_current, more) (refl, rw rows (rw more refl), refl)
      ]
