-- ===== src/Candidates/UploadCounts.antt =====
-- What a bulk upload answers, against what it did.
use i_bot_core_api_service.Prelude.{List, nat_eq, string_eq}
use i_bot_core_api_service.Office.{Office}
use i_bot_core_api_service.Repositories.Env.{Env}
use i_bot_core_api_service.Candidates.Tally.{Tally}
use i_bot_core_api_service.Candidates.Counts.{Counts}
