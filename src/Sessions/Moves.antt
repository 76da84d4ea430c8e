-- ===== src/Sessions/Moves.antt =====
-- What the updates of session rows are for the abstract machine.
use i_bot_core_api_service.Prelude.{
  ◌≡◌, refl, ℕ, ◌+◌, ◌≤◌, ◌<◌, ◌⊎◌, leb, Bool, true, false, List, [], ◌∷◌, Bool-cases, inl, inr,
  arith,
}
use mathlib.Core.Path.{subst}
use i_bot_core_api_service.Json.{ℤ}
use i_bot_core_api_service.Db.{
  Time, InterviewSession, SessionStatus, is_live, is_disconnected, update_where,
}
use i_bot_core_api_service.Repositories.Env.{Env}
use i_bot_core_api_service.Repositories.CandidateSession.{restored, dropped, timed_out}
use i_bot_core_api_service.Sessions.Lifecycle.{
  Lifecycle, live, away, Move, drop, last_drop, come_back, stay_away, here, Run, done, followed,
  under, phase, view, views,
}

-- A row's update is no move or one.
abbrev pub Moves : InterviewSession → InterviewSession → Type 0
Moves s t = (view s ≡ view t) ⊎ Move (view s) (view t)

move_here :
    (s t : InterviewSession) (xs ys : List Lifecycle)
    → Moves s t
    → Run xs ys
    → Run (view s ∷ xs) (view t ∷ ys)
move_here s t xs ys (inl same) run =
    subst (λ v. Run (view s ∷ xs) (v ∷ ys)) same (under (view s) run)
move_here s t xs ys (inr move) run = followed (under (view s) run) (here move)

pub Run-update_where :
    (p : InterviewSession → Bool) (f : InterviewSession → InterviewSession)
    → ((s : InterviewSession) → p s ≡ true → Moves s (f s))
    → (ss : List InterviewSession) → Run (views ss) (views (update_where p f ss))
unfolding update_where
Run-update_where p f step [] = done
Run-update_where p f step (s ∷ ss) = elim (Bool-cases (p s)) [
  | inl e ↦ rw e (
      move_here s (f s) (views ss) (views (update_where p f ss)) (step s e)
        (Run-update_where p f step ss))
  | inr e ↦ rw e (under (view s) (Run-update_where p f step ss))
]

phase-live : (status : SessionStatus) (n : ℕ) → is_live status ≡ true → phase status n ≡ live n
phase-live SessionStatus.initializing n h = refl
phase-live SessionStatus.in_progress n h = refl
phase-live _ n h = cc

phase-away :
    (status : SessionStatus) (n : ℕ) → is_disconnected status ≡ true → phase status n ≡ away n
phase-away SessionStatus.disconnected n h = refl
phase-away _ n h = cc

at_last : (n : ℕ) → leb 3 (n + 1) ≡ true → 2 ≤ n
at_last n h = ground arith

not_last : (n : ℕ) → leb 3 (n + 1) ≡ false → n < 2
not_last n h = ground arith

module _ (env : Env) where
  pub dropped-Moves :
      (deadline : Time) (elapsed_secs : ℤ) (s : InterviewSession)
      → is_live s.status ≡ true
      → Moves s (dropped env deadline elapsed_secs s)
  dropped-Moves deadline elapsed_secs s h = elim (Bool-cases (leb 3 (s.disconnect_count + 1))) [
    | inl last ↦ inr (
        rw (phase-live s.status s.disconnect_count h, last)
          (last_drop s.disconnect_count (at_last s.disconnect_count last)))
    | inr more ↦ inr (
        rw (phase-live s.status s.disconnect_count h, more)
          (drop s.disconnect_count (not_last s.disconnect_count more)))
  ]

  pub restored-Moves :
      (s : InterviewSession) → is_disconnected s.status ≡ true → Moves s (restored env s)
  restored-Moves s h =
      inr (rw (phase-away s.status s.disconnect_count h) (come_back s.disconnect_count))

  pub timed_out-Moves :
      (s : InterviewSession) → is_disconnected s.status ≡ true → Moves s (timed_out env s)
  timed_out-Moves s h =
      inr (rw (phase-away s.status s.disconnect_count h) (stay_away s.disconnect_count))
