-- ===== src/Candidates/Uploads.antt =====
-- The loop and the rest of a bulk upload keep candidates and enrollments consistent.
use i_bot_core_api_service.Prelude.{
  ◌≡◌, refl, ℕ, suc, String, none, some, List, [], ◌∷◌, ◌==◌, nat_eq, string_eq, Bool-cases,
  Option-cases, inl, inr,
}
use i_bot_core_api_service.Db.{Db, Uuid, Assessment, modify, Result-cases, ◌>>=◌, EventLog}
use i_bot_core_api_service.Keeps.{Keeps, keeps_rules, Keeps-bind, Keeps-pure}
use i_bot_core_api_service.Office.{Office}
use i_bot_core_api_service.Repositories.Env.{Env}
use i_bot_core_api_service.Assessments.Repository.{assessment_by_id}
use i_bot_core_api_service.Candidates.Repository.{Texts, Fresh, get_by_candidate_and_assessment}
use i_bot_core_api_service.Candidates.Csv.{RawRow, CsvFile, data_rows, column}
use i_bot_core_api_service.Candidates.Tally.{Tally, UploadCall, Processed, no_tally}
use i_bot_core_api_service.Candidates.Upload.{
  try_row, process_row, process_rows, is_incomplete, register_callbacks, register_one, finish,
  upload_rows, bulk_upload_from_csv, create_many,
}
use i_bot_core_api_service.Candidates.Consistent.{IsConsistent}
use i_bot_core_api_service.Candidates.Kept.{IsOrderly, Keeps-on_rows, Keeps-register}
use i_bot_core_api_service.Candidates.Created.{stored_self}
use i_bot_core_api_service.Candidates.Uploaded.{row-IsConsistent}
use i_bot_core_api_service.Candidates.RowsKept.{try_row_kept}

-- The ids that a row draws are not in the database.
abbrev pub DrawsFresh : (ℕ → Db → Fresh) → Type 0
DrawsFresh fresh =
    (row : ℕ) (db : Db) (assessment_id : Uuid)
    → get_by_candidate_and_assessment db (fresh row db).candidate_id assessment_id ≡ none

module _ (texts : Texts) (env : Env) (call : UploadCall) (a : Assessment)
    (draws : DrawsFresh call.fresh) where
  -- Consistent, and with the upload's assessment.
  abbrev IsReady : Office → Type 0
  IsReady o = IsConsistent o.db × (assessment_by_id o.db a.id ≡ some a)

  tried-IsReady :
      (row : ℕ) (name email resume : String) (o : Office)
      → IsReady o
      → IsReady (try_row texts env call a (call.fresh row o.db) name email resume o).1
  unfolding assessment_by_id
  tried-IsReady row name email resume o (h, stored) = (
    row-IsConsistent texts env call a (call.fresh row o.db) name email resume o stored
        (draws row o.db a.id) h,
    rw
        ((try_row_kept o.db.assessments texts env call a (call.fresh row o.db) name email
            resume).holds_after
          o refl)
        stored,
  )

  process_row-IsReady :
      (row : ℕ) (raw : RawRow) (t : Tally) (o : Office)
      → IsReady o
      → IsReady (process_row texts env call a row raw t o).1
  unfolding process_row
  process_row-IsReady row raw t o h =
      let name = column texts "name" raw in
      let email = column texts "email" raw in
      let resume = column texts "resume" raw in
      elim (Bool-cases (is_incomplete texts env call a name email resume)) [
        | inl e ↦ rw e h
        | inr e ↦ rw e (tried-IsReady row name email resume o h)
      ]

  process_rows-IsReady :
      (rows : List RawRow) (row : ℕ) (t : Tally) (o : Office)
      → IsReady o
      → IsReady (process_rows texts env call a row rows t o).1
  unfolding process_rows
  process_rows-IsReady [] row t o h = h
  process_rows-IsReady (raw ∷ rest) row t o h =
      process_rows-IsReady rest (suc row) (process_row texts env call a row raw t o).0
        (process_row texts env call a row raw t o).1 (process_row-IsReady row raw t o h)

Keeps-create_many : (events : List EventLog) → Keeps IsConsistent (create_many events)
unfolding create_many modify
Keeps-create_many events = record {
  holds_after = λ db h. record {
    addresses = h.addresses;
    registrations = h.registrations;
    windows = h.windows;
  };
}

Keeps-register_one : (a : Assessment) (p : Processed) → Keeps IsOrderly (register_one a p)
unfolding register_one
Keeps-register_one a p = search (keeps_rules, Keeps-register)

Keeps-register_callbacks :
    (a : Assessment) (rows : List Processed) → Keeps IsOrderly (register_callbacks a rows)
unfolding register_callbacks
Keeps-register_callbacks a [] = Keeps-pure _
Keeps-register_callbacks a (p ∷ rest) =
    Keeps-bind _ _ (Keeps-register_one a p) (λ u. Keeps-register_callbacks a rest)

Keeps-finish :
    (call : UploadCall) (a : Assessment) (total : ℕ) (t : Tally)
    → Keeps IsOrderly (finish call a total t)
unfolding finish
Keeps-finish call a total t =
    search (keeps_rules, Keeps-on_rows, Keeps-create_many, Keeps-register_callbacks)

pub upload-IsConsistent :
    (texts : Texts) (env : Env) (call : UploadCall) (file : CsvFile)
    → DrawsFresh call.fresh
    → (o : Office) → IsConsistent o.db
    → IsConsistent (bulk_upload_from_csv texts env call file o).1.db
unfolding bulk_upload_from_csv upload_rows ◌>>=◌
upload-IsConsistent texts env call file draws o h =
    elim (Option-cases (assessment_by_id o.db call.assessment_id)) [
      | inl e ↦ rw e h
      | inr (a, stored) ↦ elim (Bool-cases (a.recruiter_id == call.recruiter_id)) [
        | inr other ↦ rw (stored, other) h
        | inl own ↦ elim (Result-cases (data_rows texts file)) [
          | inr (x, e) ↦ rw (stored, own, e) h
          | inl (rows, e) ↦
              rw (stored, own, e)
                ((Keeps-finish call a _ _).holds_after _
                  (process_rows-IsReady texts env call a draws rows 1 no_tally o
                    (h, stored_self call.assessment_id o.db a stored)).0)
        ]
      ]
    ]
