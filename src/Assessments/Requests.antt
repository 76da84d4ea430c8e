-- ===== src/Assessments/Requests.antt =====
-- What a recruiter's requests on assessments do, and which jobs they queue.
use i_bot_core_api_service.Prelude.{
  ◌≡◌, append_nil, refl, arith, String, Bool, true, false, not, ◌&&◌, Option, none, some, List, [],
  ◌∷◌, ◌++◌, ◌==◌, nat_eq, string_eq, if◌then◌else◌, Bool-cases, inl, inr,
}
use i_bot_core_api_service.Json.{Json, null, arr, from_list}
use i_bot_core_api_service.Db.{
  Uuid, Assessment, AssessmentStatus, is_closed_assessment, ok, err, assessment_validation,
  assessment_access_denied, find-updated, ◌>>=◌,
}
use i_bot_core_api_service.Repositories.Env.{Env}
use i_bot_core_api_service.Assessments.Repository.{
  is_assessment, assessment_by_id, with_status, create_row, set_status,
}
use i_bot_core_api_service.Office.{
  process_assessment, cancel_invitations, Office, request, enqueue, register_after_commit_callback,
  is_given,
}
use i_bot_core_api_service.Assessments.Service.{
  get_assessment_by_id, update_status, NewAssessment, focus_column, text_of_jd, new_assessment,
  create_assessment,
}

abbrev pub is_blank : Option String → Bool
is_blank none = true
is_blank (some s) = s == ""

abbrev jd_column : Option String → String
jd_column none = ""
jd_column (some s) = s

abbrev null_or_array : List Json → Json
null_or_array [] = null
null_or_array (x ∷ xs) = arr (from_list (x ∷ xs))

is_given-is_blank : (x : Option String) → not (is_given x) ≡ is_blank x
is_given-is_blank none = refl
is_given-is_blank (some s) = ground arith

focus_lem : (areas : List Json) → focus_column areas ≡ null_or_array areas
focus_lem [] = refl
focus_lem (x ∷ xs) = refl

text_lem : (text : Option String) → text_of_jd text ≡ jd_column text
text_lem none = refl
text_lem (some s) = refl

-- The stored assessment: what the request says, waiting for its analysis and its plan.
abbrev pub waiting_row : Env → NewAssessment → Assessment
waiting_row env n = record {
  id = env.fresh_id;
  recruiter_id = n.recruiter_id;
  title = n.title;
  role_name = n.role_name;
  jd_text = jd_column n.jd_text;
  jd_file_path = n.jd_filename;
  jd_analysis = null;
  focus_areas = null_or_array n.focus_areas;
  interview_plan = null;
  interview_duration_mins = n.duration_mins;
  window_start = n.window_start;
  window_end = n.window_end;
  status = AssessmentStatus.processing;
  updated_at = env.db_now;
}

new_assessment-waiting : (env : Env) (n : NewAssessment) → new_assessment env n ≡ waiting_row env n
new_assessment-waiting env n = rw (focus_lem n.focus_areas, text_lem n.jd_text) refl

-- A request that gives the job description neither as text nor as a file is refused, and the
-- assessments and the jobs stay as they are. Any other stores the assessment, as it was asked for
-- and as PROCESSING, and, after the commit, queues exactly one job to process it; nothing is
-- queued before that.
pub create-queues :
    (env : Env) (n : NewAssessment) (o : Office)
    → let (result, o') = request (create_assessment env n) o in
      let refused = is_blank n.jd_file_bytes && is_blank n.jd_text in
      (result ≡ (if refused then err assessment_validation else ok (waiting_row env n)))
      × ((create_assessment env n o).1.jobs ≡ o.jobs)
      × (o'.db.assessments
          ≡ (if refused then o.db.assessments else waiting_row env n ∷ o.db.assessments))
      × (o'.jobs ≡ (if refused then o.jobs else o.jobs ++ process_assessment env.fresh_id ∷ []))
unfolding request create_assessment create_row register_after_commit_callback ◌>>=◌
create-queues env n o = elim (Bool-cases (is_blank n.jd_file_bytes && is_blank n.jd_text)) [
  | inl blank ↦
      rw (is_given-is_blank n.jd_file_bytes, is_given-is_blank n.jd_text, blank)
        (refl, refl, refl, refl)
  | inr given ↦
      rw
        (
          is_given-is_blank n.jd_file_bytes,
          is_given-is_blank n.jd_text,
          given,
          new_assessment-waiting env n,
        )
        (refl, refl, refl, refl)
]

-- An assessment whose status was set just now.
abbrev pub asked_status : Env → AssessmentStatus → Assessment → Assessment
asked_status env new_status a = record a { status = new_status; updated_at = env.db_now }

module _ (env : Env) (o : Office) (a : Assessment) (recruiter_id : Uuid)
    (stored : assessment_by_id o.db a.id ≡ some a) where
  -- Only the owner of an assessment changes its status: another recruiter is refused, and neither
  -- the assessments nor the jobs change.
  pub status-denied :
      (new_status : AssessmentStatus)
      → (a.recruiter_id == recruiter_id) ≡ false
      → let (result, o') = request (update_status env a.id recruiter_id new_status) o in
        (result ≡ err assessment_access_denied) × (o'.db ≡ o.db) × (o'.jobs ≡ o.jobs)
  unfolding request update_status get_assessment_by_id ◌>>=◌
  status-denied new_status other = rw (stored, other) (refl, refl, refl)

  -- The owner's request sets the status that it asks for, whatever the status was: a closed
  -- assessment can be made active again. The candidates are told of a cancellation exactly when the
  -- assessment was not closed and is closed now.
  pub status-updated :
      (new_status : AssessmentStatus)
      → (a.recruiter_id == recruiter_id) ≡ true
      → let (result, o') = request (update_status env a.id recruiter_id new_status) o in
        (result ≡ ok (asked_status env new_status a))
        × (assessment_by_id o'.db a.id ≡ some (asked_status env new_status a))
        × (o'.jobs ≡ (
            if not (is_closed_assessment a.status) && is_closed_assessment new_status
            then o.jobs ++ cancel_invitations a.id ∷ []
            else o.jobs))
  unfolding request update_status get_assessment_by_id enqueue set_status assessment_by_id ◌>>=◌
  status-updated new_status owner =
      let row =
        find-updated (is_assessment a.id) (with_status env new_status) o.db.assessments
          (λ x. refl) in
      elim (Bool-cases (not (is_closed_assessment a.status) && is_closed_assessment new_status)) [
        | inl closing ↦ rw (stored, owner, closing) (refl, rw row (rw stored refl), append_nil _)
        | inr staying ↦
            rw (stored, owner, staying) (refl, rw row (rw stored refl), append_nil o.jobs)
      ]
