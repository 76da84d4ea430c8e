-- ===== src/Candidates/Uploaded.antt =====
-- A bulk upload keeps candidates and enrollments consistent, whichever rows fail.
use i_bot_core_api_service.Prelude.{
  ◌≡◌, refl, String, not, ◌&&◌, none, some, ◌==◌, nat_eq, string_eq, Bool-cases, Option-cases, inl,
  inr,
}
use i_bot_core_api_service.Db.{Db, Uuid, Candidate, Assessment, modify, ◌>>=◌}
use i_bot_core_api_service.Office.{Office}
use i_bot_core_api_service.Repositories.Env.{Env}
use i_bot_core_api_service.Assessments.Repository.{assessment_by_id}
use i_bot_core_api_service.Candidates.Repository.{
  Texts, Fresh, get_all_by_candidate_id, candidate_by_email, create_candidate, rename_candidate,
  create_enrollment, get_by_candidate_and_assessment, has_candidate_id,
}
use i_bot_core_api_service.Candidates.Service.{blocking, assert_no_window_overlap}
use i_bot_core_api_service.Candidates.Tally.{UploadCall}
use i_bot_core_api_service.Candidates.Upload.{enroll_row, register_known, register_row, try_row}
use i_bot_core_api_service.Candidates.Consistent.{IsConsistent, find-contains, emails-update_where}
use i_bot_core_api_service.Candidates.Statements.{stored-IsConsistent}
use i_bot_core_api_service.Candidates.Created.{created-IsConsistent}

renamed-IsConsistent :
    (id : Uuid) (name : String) (db : Db)
    → IsConsistent db
    → IsConsistent (rename_candidate id name db).1
unfolding rename_candidate modify
renamed-IsConsistent id name db h = record {
  addresses =
      rw
        (emails-update_where (has_candidate_id id) (λ c. record c { full_name = name })
          db.candidates (λ c. refl))
        h.addresses;
  registrations = h.registrations;
  windows = h.windows;
}

module _ (texts : Texts) (env : Env) (call : UploadCall) (a : Assessment) where
  enroll_row-IsConsistent :
      (fresh : Fresh) (resume : String) (candidate_id : Uuid) (o : Office)
      → assessment_by_id o.db a.id ≡ some a
      → get_by_candidate_and_assessment o.db candidate_id a.id ≡ none
      → IsConsistent o.db
      → IsConsistent (enroll_row texts env call a fresh resume candidate_id o).1.db
  unfolding assert_no_window_overlap create_enrollment ◌>>=◌
  enroll_row-IsConsistent fresh resume candidate_id o stored unregistered h =
      elim (Option-cases (blocking o.db a (get_all_by_candidate_id o.db candidate_id))) [
        | inr (b, e) ↦ rw e h
        | inl free ↦ rw free (stored-IsConsistent o.db a _ stored free unregistered h)
      ]

  new_row-IsConsistent :
      (fresh : Fresh) (name email resume : String) (o : Office)
      → assessment_by_id o.db a.id ≡ some a
      → get_by_candidate_and_assessment o.db fresh.candidate_id a.id ≡ none
      → candidate_by_email texts o.db email ≡ none
      → IsConsistent o.db
      → IsConsistent (register_row texts env call a fresh name email resume none o).1.db
  unfolding candidate_by_email create_candidate get_by_candidate_and_assessment assessment_by_id
      ◌>>=◌
  new_row-IsConsistent fresh name email resume o stored new absent h =
      enroll_row-IsConsistent fresh resume fresh.candidate_id _ stored new (
        created-IsConsistent texts fresh name email call.recruiter_id o.db
          (find-contains _ o.db.candidates absent) h)

  known_row-IsConsistent :
      (fresh : Fresh) (name resume : String) (c : Candidate) (o : Office)
      → assessment_by_id o.db a.id ≡ some a
      → get_by_candidate_and_assessment o.db c.id a.id ≡ none
      → IsConsistent o.db
      → IsConsistent (register_known texts env call a fresh name resume c none o).1.db
  unfolding rename_candidate get_by_candidate_and_assessment assessment_by_id ◌>>=◌
  known_row-IsConsistent fresh name resume c o stored unregistered h =
      elim (Bool-cases (not (name == "") && not (c.full_name == name))) [
        | inl e ↦ rw e (
            enroll_row-IsConsistent fresh resume c.id _ stored unregistered
              (renamed-IsConsistent c.id name o.db h))
        | inr e ↦ rw e (enroll_row-IsConsistent fresh resume c.id o stored unregistered h)
      ]

  pub row-IsConsistent :
      (fresh : Fresh) (name email resume : String) (o : Office)
      → assessment_by_id o.db a.id ≡ some a
      → get_by_candidate_and_assessment o.db fresh.candidate_id a.id ≡ none
      → IsConsistent o.db
      → IsConsistent (try_row texts env call a fresh name email resume o).1.db
  unfolding try_row ◌>>=◌
  row-IsConsistent fresh name email resume o stored new h =
      elim (Option-cases (candidate_by_email texts o.db email)) [
        | inl absent ↦
            rw absent (new_row-IsConsistent fresh name email resume o stored new absent h)
        | inr (c, found) ↦ elim (Option-cases (get_by_candidate_and_assessment o.db c.id a.id)) [
          | inr (ca, e) ↦ rw (found, e) h
          | inl unregistered ↦
              rw (found, unregistered)
                (known_row-IsConsistent fresh name resume c o stored unregistered h)
        ]
      ]
