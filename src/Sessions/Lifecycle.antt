-- ===== src/Sessions/Lifecycle.antt =====
-- The life of an interview session as an abstract machine, which the calls on the table of sessions
-- refine.
use i_bot_core_api_service.Prelude.{ℕ, ◌+◌, ◌≤◌, ◌<◌, List, ◌∷◌, map}
use i_bot_core_api_service.Db.{InterviewSession, SessionStatus}

-- A session with the number of its drops.
pub data Lifecycle : Type 0 where
  live away over : ℕ → Lifecycle

pub data Move : Lifecycle → Lifecycle → Type 0 where
  drop : (n : ℕ) → n < 2 → Move (live n) (away (n + 1))
  last_drop : (n : ℕ) → 2 ≤ n → Move (live n) (over (n + 1))
  come_back : (n : ℕ) → Move (away n) (live n)
  stay_away : (n : ℕ) → Move (away n) (over n)

-- One step of the sessions: one of them moves, or a new one stands before the others.
pub data Progress : List Lifecycle → List Lifecycle → Type 0 where
  here : {x y : Lifecycle} {xs : List Lifecycle} → Move x y → Progress (x ∷ xs) (y ∷ xs)
  there : {x : Lifecycle} {xs ys : List Lifecycle} → Progress xs ys → Progress (x ∷ xs) (x ∷ ys)
  opened : {xs : List Lifecycle} → Progress xs (live 0 ∷ xs)

pub data Run : List Lifecycle → List Lifecycle → Type 0 where
  done : {xs : List Lifecycle} → Run xs xs
  followed : {xs ys zs : List Lifecycle} → Run xs ys → Progress ys zs → Run xs zs

pub followed_by : {xs ys zs : List Lifecycle} → Run xs ys → Run ys zs → Run xs zs
followed_by r done = r
followed_by r (followed s step) = followed (followed_by r s) step

pub under : {xs ys : List Lifecycle} (x : Lifecycle) → Run xs ys → Run (x ∷ xs) (x ∷ ys)
under x done = done
under x (followed r step) = followed (under x r) (there step)

-- What the machine sees of a session's status.
abbrev pub phase : SessionStatus → ℕ → Lifecycle
phase SessionStatus.initializing n = live n
phase SessionStatus.in_progress n = live n
phase SessionStatus.disconnected n = away n
phase _ n = over n

abbrev pub view : InterviewSession → Lifecycle
view s = phase s.status s.disconnect_count

abbrev pub views : List InterviewSession → List Lifecycle
views ss = map view ss
