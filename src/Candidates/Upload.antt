-- ===== src/Candidates/Upload.antt =====
-- `bulk_upload_from_csv` of src/core/services/candidate_service.py.
use i_bot_core_api_service.Prelude.{
  ℕ, suc, String, Bool, not, ◌&&◌, ◌||◌, Option, none, some, List, [], ◌∷◌, ◌++◌, length, ◌==◌,
  nat_eq, string_eq, if◌then◌else◌,
}
use i_bot_core_api_service.Json.{null}
use i_bot_core_api_service.Db.{
  Db, Uuid, Candidate, Assessment, CandidateAssessment, ParseStatus, EventLog, Result, ok, err,
  Exec, assessment_not_found, assessment_access_denied, raise, pure, gets, modify, lift, ◌>>=◌,
  ◌>>◌,
}
use i_bot_core_api_service.Office.{
  Office, resume_url, send_invitation, parse_resume, on_rows, register_after_commit_callback,
}
use i_bot_core_api_service.Repositories.Env.{Env}
use i_bot_core_api_service.Assessments.Repository.{assessment_by_id}
use i_bot_core_api_service.Candidates.Repository.{
  Texts, Fresh, candidate_by_email, create_candidate, rename_candidate,
  get_by_candidate_and_assessment, new_enrollment, create_enrollment,
}
use i_bot_core_api_service.Candidates.Service.{assert_no_window_overlap, invitation_of}
use i_bot_core_api_service.Candidates.Csv.{RawRow, CsvFile, column, data_rows}
use i_bot_core_api_service.Candidates.Tally.{
  CsvRowResult, Processed, Tally, UploadCall, failed, succeeded, row_reason, no_tally,
  missing_required_fields, candidate_already_registered,
}

module _ (texts : Texts) (env : Env) (call : UploadCall) (a : Assessment) where
  abbrev pub renamed : Candidate → String → Exec Office Uuid
  renamed c name = do
    if not (name == "") && not (c.full_name == name)
        then on_rows (rename_candidate c.id name)
        else pure tt
    pure c.id

  -- The enrollment of the row's candidate, once it is known not to be registered.
  abbrev pub enroll_row : Fresh → String → Uuid → Exec Office (Option CandidateAssessment)
  enroll_row fresh resume candidate_id = do
    assert_no_window_overlap candidate_id a
    ca ← on_rows (
        create_enrollment
          (new_enrollment env fresh candidate_id a.id resume ParseStatus.pending null))
    pure (some ca)

  abbrev pub register_known :
      Fresh
      → String
      → String
      → Candidate
      → Option CandidateAssessment
      → Exec Office (Option CandidateAssessment)
  register_known fresh name resume c (some ca) = pure none
  register_known fresh name resume c none = do id ← renamed c name; enroll_row fresh resume id

  abbrev pub register_row :
      Fresh → String → String → String → Option Candidate → Exec Office (Option CandidateAssessment)
  register_row fresh name email resume none = do
    c ← on_rows (create_candidate texts fresh name email call.recruiter_id)
    enroll_row fresh resume c.id
  register_row fresh name email resume (some c) = do
    existing ← gets (λ o. get_by_candidate_and_assessment o.db c.id a.id)
    register_known fresh name resume c existing

  -- The body of the `try`: none for a candidate that is registered.
  unfoldable pub try_row :
      Fresh → String → String → String → Exec Office (Option CandidateAssessment)
  try_row fresh name email resume = do
    known ← gets (λ o. candidate_by_email texts o.db email)
    register_row fresh name email resume known

  abbrev pub record_row : ℕ → String → String → Tally → Result (Option CandidateAssessment) → Tally
  record_row row name email t (ok (some ca)) =
      succeeded row email
        (record { ca_record = ca; candidate_name = name; recipient_email = email }) t
  record_row row name email t (ok none) = failed call row email candidate_already_registered t
  record_row row name email t (err e) = failed call row email (row_reason e) t

  abbrev pub is_incomplete : String → String → String → Bool
  is_incomplete name email resume = email == "" || name == "" || resume == ""

  -- One turn of the loop. What a failed row wrote stays written: nothing rolls it back.
  unfoldable pub process_row : ℕ → RawRow → Tally → Office → Tally × Office
  process_row row raw t o =
      let name = column texts "name" raw in
      let email = column texts "email" raw in
      let resume = column texts "resume" raw in
      if is_incomplete name email resume
      then (failed call row (if email == "" then "(empty)" else email) missing_required_fields t, o)
      else (let (r, o') = try_row (call.fresh row o.db) name email resume o in
          (record_row row name email t r, o'))

  unfoldable pub process_rows : ℕ → List RawRow → Tally → Office → Tally × Office
  process_rows row [] t o = (t, o)
  process_rows row (raw ∷ rest) t o =
      let (t', o') = process_row row raw t o in process_rows (suc row) rest t' o'

-- The jobs of one enrolled row, after the commit.
unfoldable pub register_one : Assessment → Processed → Exec Office Unit
register_one a p = do
  register_after_commit_callback
      (send_invitation (invitation_of a p.ca_record p.candidate_name p.recipient_email))
  if not (p.ca_record.resume_file_path == "")
      then register_after_commit_callback
          (parse_resume p.ca_record.id (resume_url p.ca_record.resume_file_path))
      else pure tt

unfoldable pub register_callbacks : Assessment → List Processed → Exec Office Unit
register_callbacks a [] = pure tt
register_callbacks a (p ∷ rest) = do register_one a p; register_callbacks a rest

-- The `overall_status` is COMPLETED if `completed`, and COMPLETED_WITH_ERRORS otherwise.
pub record BulkUploadResponse : Type 0 where
  pub upload_id : Uuid
  pub total_rows : ℕ
  pub successful_rows : ℕ
  pub failed_rows : ℕ
  pub row_results : List CsvRowResult
  pub completed : Bool

abbrev pub owned_assessment : Uuid → Option Assessment → Exec Office Assessment
owned_assessment recruiter_id none = raise assessment_not_found
owned_assessment recruiter_id (some a) =
    if not (a.recruiter_id == recruiter_id) then raise assessment_access_denied else pure a

-- `EventLogsRepository.create_many`
unfoldable pub create_many : List EventLog → Exec Db Unit
create_many events = modify λ db. record db { event_logs = db.event_logs ++ events }

abbrev pub response_of : UploadCall → ℕ → Tally → BulkUploadResponse
response_of call total t = record {
  upload_id = call.upload_id;
  total_rows = total;
  successful_rows = t.successful_rows;
  failed_rows = t.failed_rows;
  row_results = t.row_results;
  completed = t.failed_rows == 0;
}

-- After the loop.
unfoldable pub finish : UploadCall → Assessment → ℕ → Tally → Exec Office BulkUploadResponse
finish call a total t = do
  on_rows (create_many t.failure_events)
  register_callbacks a t.processed
  pure (response_of call total t)

unfoldable pub upload_rows :
    Texts → Env → UploadCall → Assessment → List RawRow → Exec Office BulkUploadResponse
upload_rows texts env call a rows o =
    let (t, o') = process_rows texts env call a 1 rows no_tally o in
    finish call a (length rows) t o'

unfoldable pub bulk_upload_from_csv :
    Texts → Env → UploadCall → CsvFile → Exec Office BulkUploadResponse
bulk_upload_from_csv texts env call file = do
  found ← gets (λ o. assessment_by_id o.db call.assessment_id)
  a ← owned_assessment call.recruiter_id found
  rows ← lift (data_rows texts file)
  upload_rows texts env call a rows
