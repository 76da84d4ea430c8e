-- ===== src/Interviews/Persist.antt =====
-- The loops of `persist_turn` (src/api/rest/routes/internal_interview.py) over transcript turns and
-- violations, as appends to the records of one session's row.
use i_bot_core_api_service.Prelude.{
  ◌≡◌, refl, Bool, true, false, none, some, List, [], ◌∷◌, arith, inl, inr, nat_eq, if◌then◌else◌,
}
use i_bot_core_api_service.Json.{Json, Fields}
use i_bot_core_api_service.Db.{Db, Uuid, InterviewSession, ok, Result-cases, update_where, ◌>>=◌}
use i_bot_core_api_service.Repositories.Env.{Env}
use i_bot_core_api_service.Repositories.Statements.{has_id, session_by_id, session_by_id-update_id}
use i_bot_core_api_service.Violations.{Python, append_unique}
use i_bot_core_api_service.Violations.Retry.{append_each, append_unique-known}
use i_bot_core_api_service.Interviews.Rows.{
  append_transcript_turn, append_violation, transcribed, with_violations, locked_session,
}
use i_bot_core_api_service.Interviews.Requests.{append_turns, append_violations}

module _ (py : Python) (env : Env) (id : Uuid) where
  -- The state after an update of the session's row.
  abbrev updated : (InterviewSession → InterviewSession) → Db → Db
  updated f db = record db { interview_sessions = update_where (has_id id) f db.interview_sessions }

  turn-run :
      (db : Db) (s : InterviewSession) (item : Fields) (appended : List Json) (fresh : Bool)
      → session_by_id db id ≡ some s
      → append_unique py "turn_id" s.transcript item ≡ ok (appended, fresh)
      → append_transcript_turn py env id item none db
        ≡ (ok fresh, updated (transcribed env appended fresh none) db)
  unfolding append_transcript_turn locked_session session_by_id ◌>>=◌
  turn-run db s item appended fresh stored e = rw (stored, e) refl

  transcript-kept :
      (s : InterviewSession) (item : Fields) (appended : List Json) (fresh : Bool)
      → append_unique py "turn_id" s.transcript item ≡ ok (appended, fresh)
      → (transcribed env appended fresh none s).transcript ≡ appended
  transcript-kept s item appended true e = refl
  transcript-kept s item appended false e =
      append_unique-known py "turn_id" s.transcript appended item e

  pub turns-appended :
      (items : List Fields) (db : Db) (s : InterviewSession) (turns : List Json)
      → session_by_id db id ≡ some s
      → append_each py "turn_id" s.transcript items ≡ ok turns
      → (s' : InterviewSession) × ((append_turns py env id items db).0 ≡ ok tt)
        × (session_by_id (append_turns py env id items db).1 id ≡ some s')
        × (s'.transcript ≡ turns)
        × (s'.violations ≡ s.violations)
        × (s'.total_elapsed_secs ≡ s.total_elapsed_secs)
        × (s'.total_pause_secs ≡ s.total_pause_secs)
  unfolding append_turns append_each session_by_id ◌>>=◌
  turns-appended [] db s turns stored h = (s, refl, stored, ground (arith, h), refl, refl, refl)
  turns-appended (item ∷ rest) db s turns stored h =
      elim (Result-cases (append_unique py "turn_id" s.transcript item)) [
        | inl ((next, fresh), e) ↦
            let later : append_each py "turn_id" next rest ≡ ok turns = rw e at h in
            rw (turn-run db s item next fresh stored e) (
              turns-appended rest (updated (transcribed env next fresh none) db)
                (transcribed env next fresh none s) turns
                (rw (session_by_id-update_id (transcribed env next fresh none) db id (λ t. refl))
                  (rw stored refl))
                (rw (transcript-kept s item next fresh e) later))
        | inr (er, e) ↦ ground (arith, e)
      ]

  violation-run :
      (db : Db) (s : InterviewSession) (item : Fields) (appended : List Json) (fresh : Bool)
      → session_by_id db id ≡ some s
      → append_unique py "violation_id" s.violations item ≡ ok (appended, fresh)
      → append_violation py env id item db
        ≡ (ok fresh, if fresh then updated (with_violations env appended) db else db)
  unfolding append_violation locked_session session_by_id ◌>>=◌
  violation-run db s item appended true stored e = rw (stored, e) refl
  violation-run db s item appended false stored e = rw (stored, e) refl

  pub violations-appended :
      (items : List Fields) (db : Db) (s : InterviewSession) (records : List Json)
      → session_by_id db id ≡ some s
      → append_each py "violation_id" s.violations items ≡ ok records
      → (s' : InterviewSession) × ((append_violations py env id items db).0 ≡ ok tt)
        × (session_by_id (append_violations py env id items db).1 id ≡ some s')
        × (s'.violations ≡ records)
        × (s'.transcript ≡ s.transcript)
        × (s'.total_elapsed_secs ≡ s.total_elapsed_secs)
        × (s'.total_pause_secs ≡ s.total_pause_secs)
  unfolding append_violations append_each session_by_id ◌>>=◌
  violations-appended [] db s records stored h =
      (s, refl, stored, ground (arith, h), refl, refl, refl)
  violations-appended (item ∷ rest) db s records stored h =
      elim (Result-cases (append_unique py "violation_id" s.violations item)) [
        | inl ((next, true), e) ↦ rw (violation-run db s item next true stored e) (
            violations-appended rest (updated (with_violations env next) db)
              (with_violations env next s) records
              (rw (session_by_id-update_id (with_violations env next) db id (λ t. refl))
                (rw stored refl))
              (rw e at h))
        | inl ((next, false), e) ↦
            let later : append_each py "violation_id" next rest ≡ ok records = rw e at h in
            rw (violation-run db s item next false stored e) (
              violations-appended rest db s records stored
                (rw (append_unique-known py "violation_id" s.violations next item e) later))
        | inr (er, e) ↦ ground (arith, e)
      ]
