-- ===== src/Sessions/Outcome.antt =====
-- How each method of `InterviewSessionService` ends: inside the transaction it only notes a
-- rejection or a response, so what it wrote is committed; the rejection is raised afterwards.
use i_bot_core_api_service.Prelude.{String, Option, none, some, List, [], ◌∷◌, ◌++◌}
use i_bot_core_api_service.Db.{
  Db, Uuid, EventName, EventSource, Detail, Exec, Error, pure, raise, modify,
}

-- The local variables `rejection` and `response`.
abbrev pub Outcome : Type 0 → Type 0
Outcome A = Option Error × Option A

abbrev pub reject : {A : Type 0} → Error → Exec Db (Outcome A)
reject e = pure (some e, none)

abbrev pub respond : {A : Type 0} → A → Exec Db (Outcome A)
respond a = pure (none, some a)

-- `if rejection is not None: raise rejection`, `if response is None: raise ...`, `return response`.
abbrev pub settle : {A : Type 0} → Error → Outcome A → Exec Db A
settle fallback (some e, response) = raise e
settle fallback (none, none) = raise fallback
settle fallback (none, some a) = pure a

-- `InterviewSessionService._record`, over `EventLogsRepository.create`.
unfoldable pub record_event : EventName → Uuid → Option Uuid → List (String × Detail) → Exec Db Unit
record_event name correlation_id ca_id details = modify λ db. record db {
  event_logs =
      db.event_logs
      ++ record {
        event_name = name;
        source_service = EventSource.interview_engine;
        correlation_id = correlation_id;
        candidate_assessment_id = ca_id;
        recruiter_id = none;
        details = details;
      }
        ∷ [];
}
