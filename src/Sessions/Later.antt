-- ===== src/Sessions/Later.antt =====
-- How a row and a table may look later: the relations behind the history of sessions.

use i_bot_core_api_service.Prelude.{
  ◌≤◌, ◌≡◌, ◌≢◌, Bool, true, none, List, [], ◌∷◌, arith, Bool-cases, inl, inr,
}
use i_bot_core_api_service.Db.{
  Db, InterviewSession, CandidateAssessment, is_terminal_session, update_where,
}

-- The same session later: its keys and its evidence are the same, a terminal status is final, and
-- the counters and totals do not fall.
pub record LaterSession (s t : InterviewSession) : Type 0 where
  pub same_id : t.id ≡ s.id
  pub same_enrollment : t.candidate_assessment_id ≡ s.candidate_assessment_id
  pub transcript : t.transcript ≡ s.transcript
  pub violations : t.violations ≡ s.violations
  pub final : is_terminal_session s.status ≡ true → t.status ≡ s.status
  pub drops : s.disconnect_count ≤ t.disconnect_count
  pub timeouts : s.timeout_disconnect_count ≤ t.timeout_disconnect_count
  pub elapsed : s.total_elapsed_secs ≤ t.total_elapsed_secs
  pub paused : s.total_pause_secs ≤ t.total_pause_secs

-- The same enrollment later: a consumed invitation stays consumed, and the first times that were
-- written stay.
pub record LaterEnrollment (c d : CandidateAssessment) : Type 0 where
  pub same_id : d.id ≡ c.id
  pub invitation : d.invitation_token ≡ c.invitation_token
  pub consumed : c.invite_consumed ≡ true → d.invite_consumed ≡ true
  pub consumed_at : c.invite_consumed_at ≢ none → d.invite_consumed_at ≡ c.invite_consumed_at
  pub started : d.interview_started_at ≡ c.interview_started_at
  pub ended_at : c.interview_ended_at ≢ none → d.interview_ended_at ≡ c.interview_ended_at

-- A table later: its rows in their order, each as `R` allows, and new rows before them.
pub data Later {A : Type 0} (R : A → A → Type 0) : List A → List A → Type 0 where
  empty : Later R [] []
  kept : {x y : A} {xs ys : List A} → R x y → Later R xs ys → Later R (x ∷ xs) (y ∷ ys)
  added : {xs ys : List A} (y : A) → Later R xs ys → Later R xs (y ∷ ys)

module _ {A : Type 0} {R : A → A → Type 0} where
  pub Later-refl : ((x : A) → R x x) → (xs : List A) → Later R xs xs
  Later-refl same [] = empty
  Later-refl same (x ∷ xs) = kept (same x) (Later-refl same xs)

  pub Later-trans :
      ((x y z : A) → R x y → R y z → R x z)
      → {ys zs : List A} → Later R ys zs
      → {xs : List A} → Later R xs ys
      → Later R xs zs
  Later-trans chain (added z q) p = added z (Later-trans chain q p)
  Later-trans chain empty empty = empty
  Later-trans chain (kept r' q) (kept r p) = kept (chain _ _ _ r r') (Later-trans chain q p)
  Later-trans chain (kept {y = z} r' q) (added y p) = added z (Later-trans chain q p)

  pub Later-update_where :
      ((x : A) → R x x)
      → (p : A → Bool) (f : A → A) → ((x : A) → p x ≡ true → R x (f x))
      → (xs : List A) → Later R xs (update_where p f xs)
  unfolding update_where
  Later-update_where same p f step [] = empty
  Later-update_where same p f step (x ∷ xs) = elim (Bool-cases (p x)) [
    | inl e ↦ rw e (kept (step x e) (Later-update_where same p f step xs))
    | inr e ↦ rw e (kept (same x) (Later-update_where same p f step xs))
  ]

pub LaterSession-refl : (s : InterviewSession) → LaterSession s s
LaterSession-refl s = ground arith

pub LaterSession-trans :
    (s t u : InterviewSession) → LaterSession s t → LaterSession t u → LaterSession s u
LaterSession-trans s t u h k = ground arith

pub LaterEnrollment-refl : (c : CandidateAssessment) → LaterEnrollment c c
LaterEnrollment-refl c = ground arith

pub LaterEnrollment-trans :
    (c d e : CandidateAssessment) → LaterEnrollment c d → LaterEnrollment d e → LaterEnrollment c e
LaterEnrollment-trans c d e h k = ground arith

pub record LaterDb (db later : Db) : Type 0 where
  pub sessions : Later LaterSession db.interview_sessions later.interview_sessions
  pub enrollments : Later LaterEnrollment db.candidate_assessments later.candidate_assessments
