-- ===== src/Keeps.antt =====
-- Invariants of actions: a rule for each way in which the services build one.
use i_bot_core_api_service.Prelude.{Bool, true, false, Option, none, some, if◌then◌else◌}
use i_bot_core_api_service.Db.{
  Error, Result, ok, err, Exec, pure, raise, gets, scalar_one, lift, commit_or_rollback,
  session_scope, continue, ◌>>=◌,
}

-- A property that an action does not lose, however it ends.
pub record Keeps {ℓ} {S A : Type ℓ} (P : S → Type ℓ) (action : Exec S A) : Type ℓ where
  pub holds_after : (before : S) → P before → P (action before).1

module _ {ℓ} {S A : Type ℓ} {P : S → Type ℓ} where
  pub Keeps-gets : (f : S → A) → Keeps P (gets f)
  unfolding gets
  Keeps-gets f = record { holds_after = λ before h. h }

  pub Keeps-raise : (e : Error) → Keeps P (raise {A = A} e)
  unfolding raise
  Keeps-raise e = record { holds_after = λ before h. h }

  pub Keeps-pure : (a : A) → Keeps P (pure a)
  unfolding pure
  Keeps-pure a = record { holds_after = λ before h. h }

  pub Keeps-scalar_one : (found : Option A) → Keeps P (scalar_one found)
  unfolding scalar_one
  Keeps-scalar_one none = Keeps-raise _
  Keeps-scalar_one (some a) = Keeps-pure a

  pub Keeps-lift : (r : Result A) → Keeps P (lift r)
  unfolding lift
  Keeps-lift r = record { holds_after = λ before h. h }

  pub Keeps-if : (b : Bool) (m n : Exec S A) → Keeps P m → Keeps P n → Keeps P (if b then m else n)
  Keeps-if true m n km kn = km
  Keeps-if false m n km kn = kn

module _ {ℓ} {S A : Type ℓ} (P : S → Type ℓ) where
  committed :
      (r : Result A) (before after : S)
      → P before
      → P after
      → P (commit_or_rollback before r after).1
  committed (ok a) before after h h' = h'
  committed (err e) before after h h' = h

module _ {ℓ} {S A : Type ℓ} {P : S → Type ℓ} where
  -- A rolled-back block leaves the state that it began in.
  pub Keeps-session_scope : (m : Exec S A) → Keeps P m → Keeps P (session_scope m)
  unfolding session_scope
  Keeps-session_scope m km = record {
    holds_after = λ s h. let (r, s') = m s in committed P r s s' h (km.holds_after s h);
  }

module _ {ℓ} {S A B : Type ℓ} {P : S → Type ℓ} where
  continued :
      (r : Result A) (f : A → Exec S B) (s : S)
      → ((a : A) → Keeps P (f a))
      → P s
      → P (continue r f s).1
  continued (ok a) f s kf h = (kf a).holds_after s h
  continued (err e) f s kf h = h

  pub Keeps-bind :
      (first : Exec S A) (next : A → Exec S B)
      → Keeps P first
      → ((a : A) → Keeps P (next a))
      → Keeps P (first >>= next)
  unfolding ◌>>=◌
  Keeps-bind first next k ks = record {
    holds_after = λ before h.
        let (r, middle) = first before in continued r next middle ks (k.holds_after before h);
  }

pub ruleset keeps_rules = (
  Keeps-pure, Keeps-raise, Keeps-gets, Keeps-lift, Keeps-scalar_one, Keeps-if, Keeps-session_scope,
  Keeps-bind,
)
