-- ===== src/Db/Table.antt =====
-- A table is the list of its rows. The statements that the repositories build with SQLAlchemy:
-- `select(...).where(...)` for one row, and `update(...).where(...).values(...)`.
use mathlib.Core.Option
use mathlib.Core.Option.{some-injective}
use mathlib.Core.Path.{subst}
use i_bot_core_api_service.Prelude.{
  ◌≡◌, refl, sym, ap, Bool, true, false, ◌&&◌, Option, none, some, List, [], ◌∷◌, arith, Bool-cases,
  Option-cases, inl, inr, All, filter, if◌then◌else◌,
}

module _ {ℓ} {A : Type ℓ} where
  -- The row that a query by a unique column selects.
  unfoldable pub find : (A → Bool) → List A → Option A
  find p [] = none
  find p (x ∷ xs) = if p x then some x else find p xs

  unfoldable pub update_where : (A → Bool) → (A → A) → List A → List A
  update_where p f [] = []
  update_where p f (x ∷ xs) = (if p x then f x else x) ∷ update_where p f xs

  -- The row that a lookup found satisfies the lookup's test.
  pub find-holds : (p : A → Bool) (xs : List A) (x : A) → find p xs ≡ some x → p x ≡ true
  unfolding find
  find-holds p [] x h = ground arith
  find-holds p (y ∷ ys) x h = elim (Bool-cases (p y)) [
    | inl e ↦ subst (λ z. p z ≡ true) (some-injective y x (rw e at h)) e
    | inr e ↦ find-holds p ys x (rw e at h)
  ]

  -- An update that leaves the looked-up column alone is seen by the lookup exactly where the
  -- statement's condition holds.
  pub find-update_where :
      (p q : A → Bool) (f : A → A) (xs : List A)
      → ((x : A) → p (f x) ≡ p x)
      → find p (update_where q f xs) ≡ Option.map (λ x. if q x then f x else x) (find p xs)
  unfolding find update_where
  find-update_where p q f [] keeps = refl
  find-update_where p q f (y ∷ ys) keeps = ground (arith, keeps y, find-update_where p q f ys keeps)

  pub All-update_where {κ} :
      (P : A → Type κ) (q : A → Bool) (f : A → A) (xs : List A)
      → ((x : A) → q x ≡ true → P x → P (f x))
      → All P xs
      → All P (update_where q f xs)
  unfolding update_where
  All-update_where P q f [] keeps h = h
  All-update_where P q f (y ∷ ys) keeps h = elim (Bool-cases (q y)) [
    | inl e ↦ rw e (keeps y e h.0, All-update_where P q f ys keeps h.1)
    | inr e ↦ rw e (h.0, All-update_where P q f ys keeps h.1)
  ]

  pub All-find {κ} :
      (P : A → Type κ) (p : A → Bool) (xs : List A) (x : A) → find p xs ≡ some x → All P xs → P x
  unfolding find
  All-find P p [] x h all = cc
  All-find P p (y ∷ ys) x h all = elim (Bool-cases (p y)) [
    | inl e ↦ subst P (some-injective y x (rw e at h)) all.0
    | inr e ↦ All-find P p ys x (rw e at h) all.1
  ]

  -- A further condition that the found row meets does not change the lookup.
  pub find-and :
      (p q : A → Bool) (xs : List A) (x : A)
      → find p xs ≡ some x
      → q x ≡ true
      → find (λ y. p y && q y) xs ≡ some x
  unfolding find
  find-and p q [] x h e = h
  find-and p q (y ∷ ys) x h e = elim (Bool-cases (p y)) [
    | inl found ↦
        let same : y ≡ x = some-injective y x (rw found at h) in
        rw found (rw (subst (λ z. q z ≡ true) (sym same) e) (ap some same))
    | inr other ↦ rw other (find-and p q ys x (rw other at h) e)
  ]

  -- ... and one that it fails, under a unique key, empties it.
  pub find-and_none :
      (p q : A → Bool) (xs : List A)
      → ((x : A) → p x ≡ true → q x ≡ false)
      → find (λ y. p y && q y) xs ≡ none
  unfolding find
  find-and_none p q [] h = refl
  find-and_none p q (y ∷ ys) h = elim (Bool-cases (p y)) [
    | inl found ↦ rw (found, h y found) (find-and_none p q ys h)
    | inr other ↦ rw other (find-and_none p q ys h)
  ]

  -- A statement whose condition no row meets changes nothing.
  pub update_where-none :
      (p : A → Bool) (f : A → A) (xs : List A) → find p xs ≡ none → update_where p f xs ≡ xs
  unfolding find update_where
  update_where-none p f [] h = refl
  update_where-none p f (y ∷ ys) h = elim (Bool-cases (p y)) [
    | inl e ↦ cc (rw e at h)
    | inr e ↦ rw e (ap (λ zs. y ∷ zs) (update_where-none p f ys (rw e at h)))
  ]

  -- The looked-up row after an update of it under a further condition that it meets.
  pub find-update_key :
      (p q : A → Bool) (f : A → A) (xs : List A) (x : A)
      → ((y : A) → p (f y) ≡ p y)
      → find p xs ≡ some x
      → q x ≡ true
      → find p (update_where (λ y. p y && q y) f xs) ≡ some (f x)
  find-update_key p q f xs x same found holds =
      rw (find-update_where p (λ y. p y && q y) f xs same)
        (rw (found, find-holds p xs x found, holds) refl)

  -- A selection that the updated rows are not in, before or after the update.
  pub filter-update_where :
      (q p : A → Bool) (f : A → A) (xs : List A)
      → ((x : A) → p x ≡ true → q x ≡ false)
      → ((x : A) → p x ≡ true → q (f x) ≡ false)
      → filter q (update_where p f xs) ≡ filter q xs
  unfolding filter update_where
  filter-update_where q p f [] before after = refl
  filter-update_where q p f (y ∷ ys) before after = elim (Bool-cases (p y)) [
    | inl e ↦ rw (e, before y e, after y e) (filter-update_where q p f ys before after)
    | inr e ↦ rw (e, filter-update_where q p f ys before after) refl
  ]

  -- The selection of the updated rows, once the update takes them out of it.
  pub filter-updated :
      (p : A → Bool) (f : A → A) (xs : List A)
      → ((x : A) → p x ≡ true → p (f x) ≡ false)
      → filter p (update_where p f xs) ≡ []
  unfolding filter update_where
  filter-updated p f [] after = refl
  filter-updated p f (y ∷ ys) after = elim (Bool-cases (p y)) [
    | inl e ↦ rw (e, after y e) (filter-updated p f ys after)
    | inr e ↦ rw (e, e) (filter-updated p f ys after)
  ]

  -- The looked-up row after an update of the rows of that key.
  pub find-updated :
      (p : A → Bool) (f : A → A) (xs : List A)
      → ((x : A) → p (f x) ≡ p x)
      → find p (update_where p f xs) ≡ Option.map f (find p xs)
  find-updated p f xs same = rw (find-update_where p p f xs same) (elim (Option-cases (find p xs)) [
    | inl e ↦ rw e refl
    | inr (x, e) ↦ rw (e, find-holds p xs x e) refl
  ])

  -- An update that takes its rows out of its own condition changes nothing the second time.
  pub update_where_idem :
      (p : A → Bool) (f : A → A) (xs : List A)
      → ((x : A) → p x ≡ true → p (f x) ≡ false)
      → update_where p f (update_where p f xs) ≡ update_where p f xs
  unfolding update_where
  update_where_idem p f [] after = refl
  update_where_idem p f (y ∷ ys) after = elim (Bool-cases (p y)) [
    | inl e ↦ rw (e, after y e) (ap (λ zs. f y ∷ zs) (update_where_idem p f ys after))
    | inr e ↦ rw (e, e) (ap (λ zs. y ∷ zs) (update_where_idem p f ys after))
  ]
