-- ===== src/Repositories/Statements.antt =====
-- The statements on the tables of interview sessions and of enrollments (candidate_assessments)
-- that the repositories share.
use mathlib.Core.Option
use i_bot_core_api_service.Prelude.{◌≡◌, ap, Bool, true, ◌&&◌, Option, some, ◌==◌, nat_eq}
use i_bot_core_api_service.Db.{
  Db, InterviewSession, CandidateAssessment, Uuid, Exec, ok, find, find-updated, find-update_key,
  update_where,
}

abbrev pub has_id : Uuid → InterviewSession → Bool
has_id i s = s.id == i

abbrev pub enrollment_has_id : Uuid → CandidateAssessment → Bool
enrollment_has_id i c = c.id == i

unfoldable pub session_by_id : Db → Uuid → Option InterviewSession
session_by_id db i = find (has_id i) db.interview_sessions

unfoldable pub enrollment_by_id : Db → Uuid → Option CandidateAssessment
enrollment_by_id db i = find (enrollment_has_id i) db.candidate_assessments

-- `update(InterviewSession).where(...).values(...)`
unfoldable pub update_sessions :
    (InterviewSession → Bool) → (InterviewSession → InterviewSession) → Exec Db Unit
update_sessions p f db =
    (ok tt, record db { interview_sessions = update_where p f db.interview_sessions })

-- The same with `.returning(InterviewSession)` and a condition that holds of one row at most.
unfoldable pub update_session_returning :
    (InterviewSession → Bool)
    → (InterviewSession → InterviewSession)
    → Exec Db (Option InterviewSession)
update_session_returning p f db = (
  ok (Option.map f (find p db.interview_sessions)),
  record db { interview_sessions = update_where p f db.interview_sessions },
)

unfoldable pub update_enrollments :
    (CandidateAssessment → Bool) → (CandidateAssessment → CandidateAssessment) → Exec Db Unit
update_enrollments p f db =
    (ok tt, record db { candidate_assessments = update_where p f db.candidate_assessments })

-- The row of one id after an update by that id and a further condition that the row meets.
pub session_by_id-update :
    (q : InterviewSession → Bool) (f : InterviewSession → InterviewSession) (db : Db)
    (s : InterviewSession)
    → ((t : InterviewSession) → (f t).id ≡ t.id)
    → session_by_id db s.id ≡ some s
    → q s ≡ true
    → find (has_id s.id) (update_where (λ t. has_id s.id t && q t) f db.interview_sessions)
      ≡ some (f s)
unfolding session_by_id
session_by_id-update q f db s same stored holds =
    find-update_key (has_id s.id) q f db.interview_sessions s (λ t. ap (λ i. i == s.id) (same t))
      stored holds

pub enrollment_by_id-update :
    (f : CandidateAssessment → CandidateAssessment) (db : Db) (i : Uuid)
    → ((c : CandidateAssessment) → (f c).id ≡ c.id)
    → find (enrollment_has_id i) (update_where (enrollment_has_id i) f db.candidate_assessments)
      ≡ Option.map f (enrollment_by_id db i)
unfolding enrollment_by_id
enrollment_by_id-update f db i same =
    find-updated (enrollment_has_id i) f db.candidate_assessments (λ c. ap (λ k. k == i) (same c))

pub session_by_id-update_id :
    (f : InterviewSession → InterviewSession) (db : Db) (i : Uuid)
    → ((s : InterviewSession) → (f s).id ≡ s.id)
    → find (has_id i) (update_where (has_id i) f db.interview_sessions)
      ≡ Option.map f (session_by_id db i)
unfolding session_by_id
session_by_id-update_id f db i same =
    find-updated (has_id i) f db.interview_sessions (λ c. ap (λ k. k == i) (same c))
