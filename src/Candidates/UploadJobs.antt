-- ===== src/Candidates/UploadJobs.antt =====
-- What an upload registers for after its commit.
use i_bot_core_api_service.Prelude.{
  ◌≡◌, refl, append_nil, append_assoc, ◌∙◌, ap, sym, All, ℕ, List, [], ◌∷◌, ◌++◌, string_eq,
}
use i_bot_core_api_service.Db.{Assessment, ok, ◌>>=◌}
use i_bot_core_api_service.Office.{
  Office, send_invitation, parse_resume, resume_url, register_after_commit_callback,
}
use i_bot_core_api_service.Candidates.Service.{invitation_of}
use i_bot_core_api_service.Candidates.Repository.{Texts}
use i_bot_core_api_service.Candidates.Csv.{RawRow}
use i_bot_core_api_service.Candidates.Tally.{Tally, UploadCall, Processed}
use i_bot_core_api_service.Candidates.Upload.{
  register_callbacks, finish, register_one, response_of, create_many,
}
use i_bot_core_api_service.Candidates.Counts.{upload_jobs, IsOfRow}

module _ (texts : Texts) (a : Assessment) (file_rows : List RawRow) where
  -- The jobs that a list of enrolled rows registers.
  callbacks-register :
      (rows : List Processed) (o : Office)
      → All (IsOfRow texts a file_rows) rows
      → register_callbacks a rows o
        ≡ (ok tt, record o { after_commit = o.after_commit ++ upload_jobs a rows })
  unfolding register_callbacks register_one register_after_commit_callback upload_jobs ◌>>=◌
  callbacks-register [] o h =
      ap (λ jobs. (ok tt, record o { after_commit = jobs })) (sym (append_nil o.after_commit))
  callbacks-register (p ∷ rest) o h =
      let invited =
        o.after_commit
        ++ send_invitation (invitation_of a p.ca_record p.candidate_name p.recipient_email) ∷ [] in
      let job = parse_resume p.ca_record.id (resume_url p.ca_record.resume_file_path) in
      rw (h.0.2) (
        callbacks-register rest (record o { after_commit = invited ++ job ∷ [] }) h.1
        ∙ ap (λ jobs. (ok tt, record o { after_commit = jobs }))
            (append_assoc invited (job ∷ []) (upload_jobs a rest)
              ∙ append_assoc o.after_commit _ (job ∷ upload_jobs a rest)))

  pub finish_lem :
      (call : UploadCall) (total : ℕ) (t : Tally) (o : Office)
      → All (IsOfRow texts a file_rows) t.processed
      → finish call a total t o ≡ (
        ok (response_of call total t),
        record {
          db = record o.db { event_logs = o.db.event_logs ++ t.failure_events };
          after_commit = o.after_commit ++ upload_jobs a t.processed;
          jobs = o.jobs;
        },
      )
  unfolding finish create_many ◌>>=◌
  finish_lem call total t o origins =
      rw
        (callbacks-register t.processed
          (record o { db = record o.db { event_logs = o.db.event_logs ++ t.failure_events } })
          origins)
        refl
