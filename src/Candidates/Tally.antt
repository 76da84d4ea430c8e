-- ===== src/Candidates/Tally.antt =====
-- What the loop of `bulk_upload_from_csv` gathers: results of rows, failure events and enrollments.
-- (The type of the exception in the metadata of ROW_PROCESSING_FAILED is left out.)
use i_bot_core_api_service.Prelude.{
  ℕ, ◌+◌, String, Bool, true, false, Option, none, some, List, [], ◌∷◌, ◌++◌, nat_eq, string_eq,
  if◌then◌else◌,
}
use i_bot_core_api_service.Db.{
  Db, Uuid, CandidateAssessment, EventLog, EventName, EventSource, text, count, ident, Error,
  window_overlap,
}
use i_bot_core_api_service.Candidates.Repository.{Fresh}

-- Why a row failed: the reason codes, with what the message of ROW_VALIDATION_FAILED names.
pub data Reason : Type 0 where
  missing_required_fields candidate_already_registered row_processing_failed : Reason
  row_validation_failed : Error → Reason

abbrev pub reason_code : Reason → String
reason_code missing_required_fields = "MISSING_REQUIRED_FIELDS"
reason_code candidate_already_registered = "CANDIDATE_ALREADY_REGISTERED"
reason_code row_processing_failed = "ROW_PROCESSING_FAILED"
reason_code (row_validation_failed e) = "ROW_VALIDATION_FAILED"

-- `CSVRowResult`: a row without a reason succeeded.
pub record CsvRowResult : Type 0 where
  pub row : ℕ
  pub email : String
  pub reason : Option Reason

-- A row that was enrolled: the enrollment, and the name and the address of its row.
pub record Processed : Type 0 where
  pub ca_record : CandidateAssessment
  pub candidate_name : String
  pub recipient_email : String

-- What the loop gathers.
pub record Tally : Type 0 where
  pub row_results : List CsvRowResult
  pub failure_events : List EventLog
  pub successful_rows : ℕ
  pub failed_rows : ℕ
  pub processed : List Processed

-- The arguments of the call; `upload_id` is drawn, and `fresh row db` is what a row draws while the
-- database is `db`: random UUIDs, which the database does not hold.
pub record UploadCall : Type 0 where
  pub recruiter_id : Uuid
  pub assessment_id : Uuid
  pub filename : String
  pub upload_id : Uuid
  pub fresh : ℕ → Db → Fresh

abbrev pub failure_event : UploadCall → ℕ → String → Reason → EventLog
failure_event call row email reason = record {
  event_name = EventName.csv_row_failed;
  source_service = EventSource.core_api;
  correlation_id = call.upload_id;
  candidate_assessment_id = none;
  recruiter_id = some call.recruiter_id;
  details =
      ("filename", text call.filename)
      ∷ ("row_number", count row)
      ∷ ("email", text email)
      ∷ ("assessment_id", ident call.assessment_id)
      ∷ ("reason_code", text (reason_code reason))
      ∷ [];
}

unfoldable pub failed : UploadCall → ℕ → String → Reason → Tally → Tally
failed call row email reason t = record t {
  row_results = t.row_results ++ record { row = row; email = email; reason = some reason } ∷ [];
  failure_events = t.failure_events ++ failure_event call row email reason ∷ [];
  failed_rows = t.failed_rows + 1;
}

unfoldable pub succeeded : ℕ → String → Processed → Tally → Tally
succeeded row email p t = record t {
  row_results = t.row_results ++ record { row = row; email = email; reason = none } ∷ [];
  successful_rows = t.successful_rows + 1;
  processed = t.processed ++ p ∷ [];
}

-- `BadRequestException` and its subclasses, of those that the row's code raises.
abbrev pub is_bad_request : Error → Bool
is_bad_request (window_overlap title id) = true
is_bad_request _ = false

abbrev pub row_reason : Error → Reason
row_reason e = if is_bad_request e then row_validation_failed e else row_processing_failed

abbrev pub no_tally : Tally
no_tally = record {
  row_results = [];
  failure_events = [];
  successful_rows = 0;
  failed_rows = 0;
  processed = [];
}
