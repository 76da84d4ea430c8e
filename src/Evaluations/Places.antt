-- ===== src/Evaluations/Places.antt =====
-- Rows with a unique key: their places in the order of a query.
use mathlib.Core.Option
use mathlib.Core.Option.{some-injective}
use mathlib.Core.Path.{subst}
use i_bot_core_api_service.Prelude.{
  ◌≡◌, refl, sym, ap, ◌∙◌, ℕ, suc, ◌+◌, ◌≤◌, ◌<◌, Bool, true, false, ◌||◌, Option, none, some, List,
  [], ◌∷◌, map, length, filter, contains, Distinct, ◌==◌, nat_eq, if◌then◌else◌, Bool-cases, inl,
  inr, arith,
}
use i_bot_core_api_service.Db.{find, All-find}
use i_bot_core_api_service.Order.{insert, order_by, count, Sorted, IsOrder, count-none, count-most}

apart : (a b : ℕ) (c : Bool) → (a == b || c) ≡ false → ((b == a) ≡ false) × (c ≡ false)
apart a b c h = ground arith

pub same_number : (a b : ℕ) → (a == b) ≡ true → a ≡ b
same_number a b h = ground arith

module _ {ℓ} {A : Type ℓ} (key : A → ℕ) where
  abbrev pub keys : List A → List ℕ
  keys xs = map key xs

  abbrev pub position : ℕ → List A → Option ℕ
  position k [] = none
  position k (x ∷ xs) =
      let rest = position k xs in if key x == k then some 0 else Option.map suc rest

  contains-filter :
      (k : ℕ) (p : A → Bool) (xs : List A)
      → contains k (keys xs) ≡ false
      → contains k (keys (filter p xs)) ≡ false
  unfolding filter contains
  contains-filter k p [] h = h
  contains-filter k p (x ∷ xs) h = ground (arith, contains-filter k p xs)

  pub filter-Distinct :
      (p : A → Bool) (xs : List A) → Distinct (keys xs) → Distinct (keys (filter p xs))
  unfolding filter
  filter-Distinct p [] h = h
  filter-Distinct p (x ∷ xs) h = elim (Bool-cases (p x)) [
    | inl e ↦ rw e (contains-filter (key x) p xs h.0, filter-Distinct p xs h.1)
    | inr e ↦ rw e (filter-Distinct p xs h.1)
  ]

  contains-insert :
      (precedes : A → A → Bool) (k : ℕ) (x : A) (xs : List A)
      → contains k (keys (insert precedes x xs)) ≡ contains k (keys (x ∷ xs))
  unfolding contains
  contains-insert precedes k x [] = refl
  contains-insert precedes k x (y ∷ ys) = ground (arith, contains-insert precedes k x ys)

  insert-Distinct :
      (precedes : A → A → Bool) (x : A) (xs : List A)
      → Distinct (keys (x ∷ xs))
      → Distinct (keys (insert precedes x xs))
  unfolding contains
  insert-Distinct precedes x [] h = h
  insert-Distinct precedes x (y ∷ ys) h =
      let (other, rest) = apart (key y) (key x) (contains (key x) (keys ys)) h.0 in
      elim (Bool-cases (precedes y x)) [
        | inl e ↦ rw e (
          contains-insert precedes (key y) x ys ∙ rw (other, h.1.0) refl,
          insert-Distinct precedes x ys (rest, h.1.1),
        )
        | inr e ↦ rw e h
      ]

  contains-order_by :
      (precedes : A → A → Bool) (k : ℕ) (xs : List A)
      → contains k (keys (order_by precedes xs)) ≡ contains k (keys xs)
  unfolding contains
  contains-order_by precedes k [] = refl
  contains-order_by precedes k (x ∷ xs) =
      contains-insert precedes k x (order_by precedes xs)
      ∙ ap (λ b. key x == k || b) (contains-order_by precedes k xs)

  pub order_by-Distinct :
      (precedes : A → A → Bool) (xs : List A)
      → Distinct (keys xs)
      → Distinct (keys (order_by precedes xs))
  order_by-Distinct precedes [] h = h
  order_by-Distinct precedes (x ∷ xs) h =
      insert-Distinct precedes x (order_by precedes xs)
        (contains-order_by precedes (key x) xs ∙ h.0, order_by-Distinct precedes xs h.1)

  abbrev has_key : ℕ → A → Bool
  has_key k x = key x == k

  -- The row of a key that a selection keeps.
  pub find-selected :
      (p : A → Bool) (k : ℕ) (xs : List A) (x : A)
      → find (has_key k) xs ≡ some x
      → p x ≡ true
      → find (has_key k) (filter p xs) ≡ some x
  unfolding find filter
  find-selected p k [] x h e = h
  find-selected p k (y ∷ ys) x h e = elim (Bool-cases (key y == k)) [
    | inl own ↦
        let same : y ≡ x = some-injective y x (rw own at h) in
        rw (subst (λ z. p z ≡ true) (sym same) e, own) (ap some same)
    | inr other ↦ elim (Bool-cases (p y)) [
      | inl kept ↦ rw (kept, other) (find-selected p k ys x (rw other at h) e)
      | inr left ↦ rw left (find-selected p k ys x (rw other at h) e)
    ]
  ]

  find-insert :
      (precedes : A → A → Bool) (k : ℕ) (x : A) (xs : List A)
      → contains (key x) (keys xs) ≡ false
      → find (has_key k) (insert precedes x xs) ≡ find (has_key k) (x ∷ xs)
  unfolding find contains
  find-insert precedes k x [] h = refl
  find-insert precedes k x (y ∷ ys) h =
      let (other, rest) = apart (key y) (key x) (contains (key x) (keys ys)) h in
      elim (Bool-cases (precedes y x)) [
        | inr e ↦ rw e refl
        | inl e ↦ elim (Bool-cases (key y == k)) [
          | inr f ↦ rw (e, f) (find-insert precedes k x ys rest)
          | inl f ↦
              let same : key y ≡ k = same_number (key y) k f in
              rw (e, f, subst (λ i. (key x == i) ≡ false) same other) refl
        ]
      ]

  pub find-order_by :
      (precedes : A → A → Bool) (k : ℕ) (xs : List A)
      → Distinct (keys xs)
      → find (has_key k) (order_by precedes xs) ≡ find (has_key k) xs
  unfolding find
  find-order_by precedes k [] h = refl
  find-order_by precedes k (x ∷ xs) h =
      find-insert precedes k x (order_by precedes xs) (contains-order_by precedes (key x) xs ∙ h.0)
      ∙ ap (λ r. if key x == k then some x else r) (find-order_by precedes k xs h.1)

  -- The place of a row in a sorted list: the rows that precede it are not more than stand before it,
  -- and those that it precedes are not more than stand after it.
  abbrev pub Placed : (A → A → Bool) → ℕ → A → List A → Type 0
  Placed precedes k x xs =
      (i : ℕ) × (position k xs ≡ some i)
      × (count (λ y. precedes y x) xs ≤ i)
      × (i + count (λ y. precedes x y) xs < length xs)

  pub find-Placed :
      (precedes : A → A → Bool)
      → IsOrder precedes
      → (k : ℕ) (x : A) (xs : List A) → Sorted precedes xs
      → find (has_key k) xs ≡ some x
      → Placed precedes k x xs
  unfolding find
  find-Placed precedes order k x [] sorted h = cc
  find-Placed precedes order k x (y ∷ ys) sorted h = elim (Bool-cases (key y == k)) [
    | inl own ↦
        subst (λ z. Placed precedes k z (y ∷ ys)) (some-injective y x (rw own at h))
          (
            0,
            rw own refl,
            rw (order.irrefl y, count-none (λ z. precedes z y) ys sorted.0) (omega arith),
            rw (order.irrefl y) (omega (arith, count-most (precedes y) ys)),
          )
    | inr other ↦
        let (i, place, before, later) =
          find-Placed precedes order k x ys sorted.1 (rw other at h) in
        let behind : precedes x y ≡ false =
          All-find (λ z. precedes z y ≡ false) (has_key k) ys x (rw other at h) sorted.0 in
        (suc i, rw (other, place) refl, grind (arith, before), rw behind (omega (arith, later)))
  ]
