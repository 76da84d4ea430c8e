-- ===== src/Interviews/PersistTurn.antt =====
-- `persist_turn` of src/api/rest/routes/internal_interview.py as a whole, sent once and sent again.
use i_bot_core_api_service.Prelude.{◌≡◌, ℕ, refl, max, Option, none, some, List, arith, nat_eq}
use i_bot_core_api_service.Json.{Json, Fields, ℤ, max_zero}
use i_bot_core_api_service.Db.{Db, Uuid, InterviewSession, ok, ◌>>=◌}
use i_bot_core_api_service.Repositories.Env.{Env}
use i_bot_core_api_service.Repositories.Statements.{session_by_id, session_by_id-update_id}
use i_bot_core_api_service.Violations.{Python}
use i_bot_core_api_service.Violations.Retry.{append_each, append_each_idem}
use i_bot_core_api_service.Interviews.Rows.{update_elapsed_time, elapsed_after}
use i_bot_core_api_service.Interviews.Requests.{append_turns, append_violations, persist_turn}
use i_bot_core_api_service.Interviews.Persist.{turns-appended, violations-appended}

module _ (py : Python) (env : Env) (id : Uuid) where
  -- The row after the last statement of a request.
  abbrev timed : Option ℤ → InterviewSession → InterviewSession
  timed none s = s
  timed (some n) s = record s {
    total_elapsed_secs = max s.total_elapsed_secs (max_zero n);
    total_pause_secs = max s.total_pause_secs 0;
    last_updated_at = env.db_now;
  }

  persist_turn-run :
      (items violations : List Fields) (elapsed : Option ℤ) (db : Db) (s : InterviewSession)
      → (append_turns py env id items db).0 ≡ ok tt
      → let db1 = (append_turns py env id items db).1 in
        (append_violations py env id violations db1).0 ≡ ok tt
        → session_by_id (append_violations py env id violations db1).1 id ≡ some s
        → let (result, db') = persist_turn py env id items violations elapsed db in
          (result ≡ ok tt) × (session_by_id db' id ≡ some (timed elapsed s))
  unfolding persist_turn ◌>>=◌ update_elapsed_time session_by_id
  persist_turn-run items violations none db s ran ran2 stored = rw (ran, ran2) (refl, stored)
  persist_turn-run items violations (some n) db s ran ran2 stored =
      rw (ran, ran2)
        (
          refl,
          rw
              (session_by_id-update_id (timed (some n))
                (append_violations py env id violations (append_turns py env id items db).1).1 id
                (λ t. refl))
              (rw stored refl),
        )

  timed-columns :
      (elapsed : Option ℤ) (s : InterviewSession)
      → ((timed elapsed s).transcript ≡ s.transcript)
        × ((timed elapsed s).violations ≡ s.violations)
        × ((timed elapsed s).total_elapsed_secs ≡ elapsed_after elapsed s.total_elapsed_secs)
        × ((timed elapsed s).total_pause_secs ≡ s.total_pause_secs)
  timed-columns none s = (refl, refl, refl, refl)
  timed-columns (some n) s = (refl, refl, refl, ground arith)

  -- A request whose turns and violations can all be appended answers, and the session's row then has
  -- them in its records; its elapsed time is the larger of the stored and the reported one, and its
  -- pause time is the stored one.
  pub persist_turn-appends :
      (items violations : List Fields) (elapsed : Option ℤ) (db : Db) (s : InterviewSession)
      (turns records : List Json)
      → session_by_id db id ≡ some s
      → append_each py "turn_id" s.transcript items ≡ ok turns
      → append_each py "violation_id" s.violations violations ≡ ok records
      → let (result, db') = persist_turn py env id items violations elapsed db in
        (s' : InterviewSession) × (result ≡ ok tt)
        × (session_by_id db' id ≡ some s')
        × (s'.transcript ≡ turns)
        × (s'.violations ≡ records)
        × (s'.total_elapsed_secs ≡ elapsed_after elapsed s.total_elapsed_secs)
        × (s'.total_pause_secs ≡ s.total_pause_secs)
  persist_turn-appends items violations elapsed db s turns records stored h k =
      let (s1, ran, stored1, transcript, kept, elapsed1, pause1) =
        turns-appended py env id items db s turns stored h in
      let (s2, ran2, stored2, violations2, transcript2, elapsed2, pause2) =
        violations-appended py env id violations (append_turns py env id items db).1 s1 records
          stored1 (rw kept k) in
      let (result, row) = persist_turn-run items violations elapsed db s2 ran ran2 stored2 in
      let (columns, columns2, columns3, columns4) = timed-columns elapsed s2 in
      (
        timed elapsed s2,
        result,
        row,
        rw (columns, transcript2) transcript,
        rw columns2 violations2,
        rw (columns3, elapsed2, elapsed1) refl,
        rw (columns4, pause2, pause1) refl,
      )

elapsed_after_idem :
    (elapsed : Option ℤ) (total : ℕ)
    → elapsed_after elapsed (elapsed_after elapsed total) ≡ elapsed_after elapsed total
elapsed_after_idem none total = refl
elapsed_after_idem (some n) total = ground arith

module _ (py : Python) (env again : Env) (id : Uuid) where
  -- Where the turns and the violations of a request can all be appended, the request answers, and so
  -- does a second one with the same body, at any later time: it leaves the transcript, the
  -- violations, the elapsed time and the pause time of the session as the first one left them.
  pub persist_turn-repeated :
      (items violations : List Fields) (elapsed : Option ℤ) (db : Db) (s : InterviewSession)
      (turns records : List Json)
      → session_by_id db id ≡ some s
      → append_each py "turn_id" s.transcript items ≡ ok turns
      → append_each py "violation_id" s.violations violations ≡ ok records
      → let (first, db') = persist_turn py env id items violations elapsed db in
        let (second, db'') = persist_turn py again id items violations elapsed db' in
        (first ≡ ok tt)
        × (second ≡ ok tt)
        × (s' : InterviewSession) × (s'' : InterviewSession) × (session_by_id db' id ≡ some s')
        × (session_by_id db'' id ≡ some s'')
        × (s''.transcript ≡ s'.transcript)
        × (s''.violations ≡ s'.violations)
        × (s''.total_elapsed_secs ≡ s'.total_elapsed_secs)
        × (s''.total_pause_secs ≡ s'.total_pause_secs)
  persist_turn-repeated items violations elapsed db s turns records stored h k =
      let (s', ran, stored', transcript, kept, total, pause) =
        persist_turn-appends py env id items violations elapsed db s turns records stored h k in
      let (s'', ran', stored'', transcript', kept', total', pause') =
        persist_turn-appends py again id items violations elapsed
          (persist_turn py env id items violations elapsed db).1 s' turns records stored'
          (rw transcript (append_each_idem py "turn_id" items s.transcript turns h))
          (rw kept (append_each_idem py "violation_id" violations s.violations records k)) in
      (
        ran,
        ran',
        s',
        s'',
        stored',
        stored'',
        rw (transcript', transcript) refl,
        rw (kept', kept) refl,
        rw (total', total) (elapsed_after_idem elapsed s.total_elapsed_secs),
        pause',
      )
