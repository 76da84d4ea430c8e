-- ===== src/Candidates/Counts.antt =====
-- The tally of a bulk upload against the rows that it has seen.
use mathlib.Core.List.{Mem}
use i_bot_core_api_service.Prelude.{
  ◌≡◌, ap, ◌∙◌, sym, append_nil, Option, none, some, zero, ◌+◌, length, length-append, arith, All,
  All-append, ◌++◌, map, refl, ℕ, suc, String, false, List, [], ◌∷◌, ◌==◌, nat_eq, string_eq,
}
use i_bot_core_api_service.Db.{Assessment, CandidateAssessment, EnrollmentStatus}
use i_bot_core_api_service.Office.{Office, Job, send_invitation, parse_resume, resume_url}
use i_bot_core_api_service.Candidates.Repository.{Texts}
use i_bot_core_api_service.Candidates.Csv.{RawRow, column}
use i_bot_core_api_service.Candidates.Tally.{
  Tally, UploadCall, Processed, CsvRowResult, Reason, failure_event, failed, succeeded,
}

-- The jobs that the enrollments of an upload wait for: for each its invitation, then the parsing of
-- its resume.
unfoldable pub upload_jobs : Assessment → List Processed → List Job
upload_jobs a [] = []
upload_jobs a (p ∷ ps) =
    send_invitation (record {
      ca_record_id = p.ca_record.id;
      candidate_name = p.candidate_name;
      recipient_email = p.recipient_email;
      assessment_title = a.title;
      role_name = a.role_name;
      invitation_token = p.ca_record.invitation_token;
      interview_duration_mins = a.interview_duration_mins;
    })
    ∷ parse_resume p.ca_record.id (resume_url p.ca_record.resume_file_path)
    ∷ upload_jobs a ps

-- A table after enrollments were put in front of it, one after the other.
unfoldable pub newest_first : List Processed → List CandidateAssessment → List CandidateAssessment
newest_first [] rows = rows
newest_first (p ∷ ps) rows = newest_first ps (p.ca_record ∷ rows)

abbrev with_email : Option Reason → String → List String → List String
with_email none email rest = email ∷ rest
with_email (some reason) email rest = rest

-- The addresses of the rows that did not fail.
unfoldable pub successful_emails : List CsvRowResult → List String
successful_emails [] = []
successful_emails (r ∷ rs) = with_email r.reason r.email (successful_emails rs)

-- An invited enrollment in the assessment that stands for a row of the file, with its name, its
-- address and its resume, which is given.
abbrev pub IsOfRow : Texts → Assessment → List RawRow → Processed → Type 0
IsOfRow texts a file_rows p =
    (p.ca_record.assessment_id ≡ a.id)
    × (p.ca_record.status ≡ EnrollmentStatus.invited)
    × ((p.ca_record.resume_file_path == "") ≡ false)
    × (raw : RawRow) × Mem raw file_rows
    × (p.candidate_name ≡ column texts "name" raw)
    × (p.recipient_email ≡ column texts "email" raw)
    × (p.ca_record.resume_file_path ≡ column texts "resume" raw)

-- 1, 2, ... up to a number.
unfoldable pub up_to : ℕ → List ℕ
up_to zero = []
up_to (suc n) = up_to n ++ suc n ∷ []

-- After `done` rows that began in a state.
pub record Counts (texts : Texts) (a : Assessment) (file_rows : List RawRow) (start : Office)
    (done : ℕ) (t : Tally) (o : Office) : Type 0 where
  pub rows : map (λ r. r.row) t.row_results ≡ up_to done
  pub total : t.successful_rows + t.failed_rows ≡ done
  pub enrolled : length t.processed ≡ t.successful_rows
  pub events : length t.failure_events ≡ t.failed_rows
  pub recipients : map (λ p. p.recipient_email) t.processed ≡ successful_emails t.row_results
  pub enrollments :
      o.db.candidate_assessments ≡ newest_first t.processed start.db.candidate_assessments
  pub logs : o.db.event_logs ≡ start.db.event_logs
  pub callbacks : o.after_commit ≡ start.after_commit
  pub jobs : o.jobs ≡ start.jobs
  pub origins : All (IsOfRow texts a file_rows) t.processed

map_last :
    (rs : List CsvRowResult) (r : CsvRowResult)
    → map (λ x. x.row) (rs ++ r ∷ []) ≡ map (λ x. x.row) rs ++ r.row ∷ []
map_last [] r = refl
map_last (x ∷ rs) r = ap (λ l. x.row ∷ l) (map_last rs r)

newest_first_last :
    (ps : List Processed) (p : Processed) (rows : List CandidateAssessment)
    → newest_first (ps ++ p ∷ []) rows ≡ p.ca_record ∷ newest_first ps rows
unfolding newest_first
newest_first_last [] p rows = refl
newest_first_last (q ∷ ps) p rows = newest_first_last ps p (q.ca_record ∷ rows)

recipients_last :
    (ps : List Processed) (p : Processed)
    → map (λ x. x.recipient_email) (ps ++ p ∷ [])
      ≡ map (λ x. x.recipient_email) ps ++ p.recipient_email ∷ []
recipients_last [] p = refl
recipients_last (q ∷ ps) p = ap (λ l. q.recipient_email ∷ l) (recipients_last ps p)

with_email-append :
    (reason : Option Reason) (email : String) (xs ys : List String)
    → with_email reason email (xs ++ ys) ≡ with_email reason email xs ++ ys
with_email-append none email xs ys = refl
with_email-append (some r) email xs ys = refl

emails_last :
    (rs : List CsvRowResult) (r : CsvRowResult)
    → successful_emails (rs ++ r ∷ []) ≡ successful_emails rs ++ with_email r.reason r.email []
unfolding successful_emails
emails_last [] r = refl
emails_last (x ∷ rs) r =
    ap (λ l. with_email x.reason x.email l) (emails_last rs r)
    ∙ with_email-append x.reason x.email (successful_emails rs) (with_email r.reason r.email [])

module _ (texts : Texts) (a : Assessment) (file_rows : List RawRow) (call : UploadCall)
    (start : Office) (done : ℕ) (t : Tally) (o o' : Office)
    (h : Counts texts a file_rows start done t o) (logs : o'.db.event_logs ≡ o.db.event_logs)
    (callbacks : o'.after_commit ≡ o.after_commit) (jobs : o'.jobs ≡ o.jobs) where
  pub failed-Counts :
      (email : String) (reason : Reason)
      → o'.db.candidate_assessments ≡ o.db.candidate_assessments
      → Counts texts a file_rows start (suc done) (failed call (suc done) email reason t) o'
  unfolding failed up_to
  failed-Counts email reason same = record {
    rows = rw (map_last t.row_results _) (rw h.rows refl);
    total = omega (arith, h.total);
    enrolled = h.enrolled;
    events = omega (
      arith,
      length-append t.failure_events (failure_event call (suc done) email reason ∷ []),
      h.events,
    );
    recipients = h.recipients ∙ sym (emails_last t.row_results _ ∙ append_nil _);
    enrollments = same ∙ h.enrollments;
    logs = logs ∙ h.logs;
    callbacks = callbacks ∙ h.callbacks;
    jobs = jobs ∙ h.jobs;
    origins = h.origins;
  }

  pub succeeded-Counts :
      (email : String) (p : Processed)
      → o'.db.candidate_assessments ≡ p.ca_record ∷ o.db.candidate_assessments
      → p.recipient_email ≡ email
      → IsOfRow texts a file_rows p
      → Counts texts a file_rows start (suc done) (succeeded (suc done) email p t) o'
  unfolding succeeded up_to
  succeeded-Counts email p more about origin = record {
    rows = rw (map_last t.row_results _) (rw h.rows refl);
    total = omega (arith, h.total);
    enrolled = omega (arith, length-append t.processed (p ∷ []), h.enrolled);
    events = h.events;
    recipients =
        recipients_last t.processed p ∙ rw (h.recipients, emails_last t.row_results _, about) refl;
    enrollments =
        more
        ∙ ap (λ rows. p.ca_record ∷ rows) h.enrollments
        ∙ sym (newest_first_last t.processed p start.db.candidate_assessments);
    logs = logs ∙ h.logs;
    callbacks = callbacks ∙ h.callbacks;
    jobs = jobs ∙ h.jobs;
    origins = All-append (IsOfRow texts a file_rows) t.processed (p ∷ []) h.origins (origin, tt);
  }
