-- ===== src/Tests/Persist.antt =====
-- `persist_turn` at a concrete request.
use i_bot_core_api_service.Prelude.{◌≡◌, refl, some, List, [], ◌∷◌, string_eq}
use i_bot_core_api_service.Json.{Fields, pos, str, obj, dict, get, truthy}
use i_bot_core_api_service.Db.{Db, InterviewSession, EnrollmentStatus, ok, find}
use i_bot_core_api_service.Repositories.Statements.{session_by_id}
use i_bot_core_api_service.Violations.{text_or_empty, any_with_id, append_unique}
use i_bot_core_api_service.Violations.Retry.{append_each}
use i_bot_core_api_service.Interviews.Requests.{persist_turn}
use i_bot_core_api_service.Interviews.Rows.{elapsed_after}
use i_bot_core_api_service.Interviews.PersistTurn.{persist_turn-appends, persist_turn-repeated}
use i_bot_core_api_service.Tests.Data.{seconds, test_python, at_time, live_interview, database}

abbrev question : Fields
question = dict (("turn_id", str "t-1") ∷ [])

abbrev answer : Fields
answer = dict (("turn_id", str "t-2") ∷ [])

abbrev glance : Fields
glance = dict (("violation_id", str "v-1") ∷ [])

-- The answer is in the request twice.
abbrev spoken : List Fields
spoken = question ∷ answer ∷ answer ∷ []

abbrev db : Db
db = database EnrollmentStatus.in_progress live_interview

stored : session_by_id db 5 ≡ some live_interview
unfolding session_by_id find
stored = refl

turns :
    append_each test_python "turn_id" live_interview.transcript spoken
    ≡ ok (obj question ∷ obj answer ∷ [])
unfolding append_each append_unique any_with_id text_or_empty get truthy
turns = refl

records :
    append_each test_python "violation_id" live_interview.violations (glance ∷ [])
    ≡ ok (obj glance ∷ [])
unfolding append_each append_unique any_with_id text_or_empty get truthy
records = refl

persist_turn-appends_example :
    let (result, db') =
      persist_turn test_python (at_time (seconds 50)) 5 spoken (glance ∷ []) (some (pos 30)) db in
    (s' : InterviewSession) × (result ≡ ok tt)
    × (session_by_id db' 5 ≡ some s')
    × (s'.transcript ≡ obj question ∷ obj answer ∷ [])
    × (s'.violations ≡ obj glance ∷ [])
    × (s'.total_elapsed_secs ≡ elapsed_after (some (pos 30)) live_interview.total_elapsed_secs)
    × (s'.total_pause_secs ≡ live_interview.total_pause_secs)
persist_turn-appends_example =
    persist_turn-appends test_python (at_time (seconds 50)) 5 spoken (glance ∷ []) (some (pos 30))
      db live_interview (obj question ∷ obj answer ∷ []) (obj glance ∷ []) stored turns records

persist_turn-repeated_example :
    let (first, db') =
      persist_turn test_python (at_time (seconds 50)) 5 spoken (glance ∷ []) (some (pos 30)) db in
    let (second, db'') =
      persist_turn test_python (at_time (seconds 60)) 5 spoken (glance ∷ []) (some (pos 30)) db' in
    (first ≡ ok tt)
    × (second ≡ ok tt)
    × (s' : InterviewSession) × (s'' : InterviewSession) × (session_by_id db' 5 ≡ some s')
    × (session_by_id db'' 5 ≡ some s'')
    × (s''.transcript ≡ s'.transcript)
    × (s''.violations ≡ s'.violations)
    × (s''.total_elapsed_secs ≡ s'.total_elapsed_secs)
    × (s''.total_pause_secs ≡ s'.total_pause_secs)
persist_turn-repeated_example =
    persist_turn-repeated test_python (at_time (seconds 50)) (at_time (seconds 60)) 5 spoken
      (glance ∷ []) (some (pos 30)) db live_interview (obj question ∷ obj answer ∷ [])
      (obj glance ∷ []) stored turns records
