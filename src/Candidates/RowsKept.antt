-- ===== src/Candidates/RowsKept.antt =====
-- The rows of a bulk upload leave the assessments alone.
use i_bot_core_api_service.Prelude.{◌≡◌, String, Option, none, some, List, nat_eq, string_eq}
use i_bot_core_api_service.Db.{Uuid, Candidate, Assessment, CandidateAssessment, modify, ◌>>=◌}
use i_bot_core_api_service.Keeps.{Keeps, keeps_rules}
use i_bot_core_api_service.Office.{Office, on_rows}
use i_bot_core_api_service.Repositories.Env.{Env}
use i_bot_core_api_service.Candidates.Repository.{
  Texts, Fresh, create_candidate, rename_candidate, create_enrollment,
}
use i_bot_core_api_service.Candidates.Service.{refuse_overlap, assert_no_window_overlap}
use i_bot_core_api_service.Candidates.Tally.{UploadCall}
use i_bot_core_api_service.Candidates.Upload.{enroll_row, register_known, register_row, try_row}

-- The table of assessments, which no row changes.
abbrev pub HasAssessments : List Assessment → Office → Type 0
HasAssessments assessments o = o.db.assessments ≡ assessments

module _ (assessments : List Assessment) where
  rename_kept :
      (id : Uuid) (name : String)
      → Keeps (HasAssessments assessments) (on_rows (rename_candidate id name))
  unfolding rename_candidate modify
  rename_kept id name = record { holds_after = λ o h. h }

  create_kept :
      (texts : Texts) (fresh : Fresh) (name email : String) (by : Uuid)
      → Keeps (HasAssessments assessments) (on_rows (create_candidate texts fresh name email by))
  unfolding create_candidate ◌>>=◌
  create_kept texts fresh name email by = record { holds_after = λ o h. h }

  enroll_kept :
      (ca : CandidateAssessment)
      → Keeps (HasAssessments assessments) (on_rows (create_enrollment ca))
  unfolding create_enrollment ◌>>=◌
  enroll_kept ca = record { holds_after = λ o h. h }

  refuse_kept :
      (found : Option Assessment) → Keeps (HasAssessments assessments) (refuse_overlap found)
  refuse_kept none = search keeps_rules
  refuse_kept (some b) = search keeps_rules

  assert_kept :
      (candidate_id : Uuid) (a : Assessment)
      → Keeps (HasAssessments assessments) (assert_no_window_overlap candidate_id a)
  unfolding assert_no_window_overlap
  assert_kept candidate_id a = search (keeps_rules, refuse_kept)

  module _ (texts : Texts) (env : Env) (call : UploadCall) (a : Assessment) where
    enroll_row_kept :
        (fresh : Fresh) (resume : String) (candidate_id : Uuid)
        → Keeps (HasAssessments assessments) (enroll_row texts env call a fresh resume candidate_id)
    enroll_row_kept fresh resume candidate_id = search (keeps_rules, assert_kept, enroll_kept)

    known_kept :
        (fresh : Fresh) (name resume : String) (c : Candidate) (found : Option CandidateAssessment)
        → Keeps
            (HasAssessments assessments)
            (register_known texts env call a fresh name resume c found)
    known_kept fresh name resume c none = search (keeps_rules, rename_kept, enroll_row_kept) depth 8
    known_kept fresh name resume c (some ca) = search keeps_rules

    register_kept :
        (fresh : Fresh) (name email resume : String) (found : Option Candidate)
        → Keeps
            (HasAssessments assessments)
            (register_row texts env call a fresh name email resume found)
    register_kept fresh name email resume none = search (keeps_rules, create_kept, enroll_row_kept)
    register_kept fresh name email resume (some c) = search (keeps_rules, known_kept)

    pub try_row_kept :
        (fresh : Fresh) (name email resume : String)
        → Keeps (HasAssessments assessments) (try_row texts env call a fresh name email resume)
    unfolding try_row
    try_row_kept fresh name email resume = search (keeps_rules, register_kept)
