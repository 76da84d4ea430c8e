-- ===== src/Order.antt =====
-- The order of a query's rows, and how many rows stand before and after one of them.
use i_bot_core_api_service.Prelude.{
  ◌≡◌, refl, inl, inr, ℕ, suc, ◌≤◌, Bool, true, false, List, [], ◌∷◌, length, All, if◌then◌else◌,
  Bool-cases, arith,
}

module _ {ℓ} {A : Type ℓ} where
  abbrev pub insert : (A → A → Bool) → A → List A → List A
  insert precedes x [] = x ∷ []
  insert precedes x (y ∷ ys) =
      let rest = insert precedes x ys in if precedes y x then y ∷ rest else x ∷ y ∷ ys

  -- `order_by`; rows of which neither precedes the other may stand in any order.
  abbrev pub order_by : (A → A → Bool) → List A → List A
  order_by precedes [] = []
  order_by precedes (x ∷ xs) = insert precedes x (order_by precedes xs)

  abbrev pub count : (A → Bool) → List A → ℕ
  count p [] = 0
  count p (x ∷ xs) = let rest = count p xs in if p x then suc rest else rest

  count-insert :
      (precedes : A → A → Bool) (p : A → Bool) (x : A) (xs : List A)
      → count p (insert precedes x xs) ≡ count p (x ∷ xs)
  count-insert precedes p x [] = refl
  count-insert precedes p x (y ∷ ys) = ground (arith, count-insert precedes p x ys)

  pub count-order_by :
      (precedes : A → A → Bool) (p : A → Bool) (xs : List A)
      → count p (order_by precedes xs) ≡ count p xs
  count-order_by precedes p [] = refl
  count-order_by precedes p (x ∷ xs) =
      rw (count-insert precedes p x (order_by precedes xs), count-order_by precedes p xs) refl

  length-insert :
      (precedes : A → A → Bool) (x : A) (xs : List A)
      → length (insert precedes x xs) ≡ suc (length xs)
  length-insert precedes x [] = refl
  length-insert precedes x (y ∷ ys) = ground (arith, length-insert precedes x ys)

  pub length-order_by :
      (precedes : A → A → Bool) (xs : List A) → length (order_by precedes xs) ≡ length xs
  length-order_by precedes [] = refl
  length-order_by precedes (x ∷ xs) =
      rw (length-insert precedes x (order_by precedes xs), length-order_by precedes xs) refl

  -- No row that stands later precedes an earlier one.
  abbrev pub Sorted : (A → A → Bool) → List A → Type 0
  Sorted precedes [] = Unit
  Sorted precedes (x ∷ xs) = All (λ y. precedes y x ≡ false) xs × Sorted precedes xs

  -- `precedes` is a strict weak order.
  pub record IsOrder (precedes : A → A → Bool) : Type ℓ where
    pub asym : (x y : A) → precedes x y ≡ true → precedes y x ≡ false
    pub through : (x y z : A) → precedes x z ≡ true → precedes y z ≡ false → precedes x y ≡ true
    pub irrefl : (x : A) → precedes x x ≡ false

  All-insert :
      (precedes p : A → A → Bool) (z x : A) (xs : List A)
      → p x z ≡ false
      → All (λ y. p y z ≡ false) xs
      → All (λ y. p y z ≡ false) (insert precedes x xs)
  All-insert precedes p z x [] h all = (h, tt)
  All-insert precedes p z x (y ∷ ys) h all = elim (Bool-cases (precedes y x)) [
    | inl e ↦ rw e (all.0, All-insert precedes p z x ys h all.1)
    | inr e ↦ rw e (h, all)
  ]

  All-before :
      (precedes : A → A → Bool)
      → IsOrder precedes
      → (x y : A) (ys : List A) → precedes y x ≡ false
      → All (λ z. precedes z y ≡ false) ys
      → All (λ z. precedes z x ≡ false) ys
  All-before precedes order x y [] h all = tt
  All-before precedes order x y (z ∷ zs) h all = (
    elim (Bool-cases (precedes z x)) [ inl e ↦ cc (order.through z y x e h, all.0) | inr e ↦ e ],
    All-before precedes order x y zs h all.1,
  )

  insert-Sorted :
      (precedes : A → A → Bool)
      → IsOrder precedes
      → (x : A) (xs : List A) → Sorted precedes xs
      → Sorted precedes (insert precedes x xs)
  insert-Sorted precedes order x [] sorted = (tt, tt)
  insert-Sorted precedes order x (y ∷ ys) sorted = elim (Bool-cases (precedes y x)) [
    | inl e ↦ rw e (
      All-insert precedes precedes y x ys (order.asym y x e) sorted.0,
      insert-Sorted precedes order x ys sorted.1,
    )
    | inr e ↦ rw e ((e, All-before precedes order x y ys e sorted.0), sorted)
  ]

  pub order_by-Sorted :
      (precedes : A → A → Bool)
      → IsOrder precedes
      → (xs : List A) → Sorted precedes (order_by precedes xs)
  order_by-Sorted precedes order [] = tt
  order_by-Sorted precedes order (x ∷ xs) =
      insert-Sorted precedes order x (order_by precedes xs) (order_by-Sorted precedes order xs)

  pub count-none : (p : A → Bool) (xs : List A) → All (λ x. p x ≡ false) xs → count p xs ≡ 0
  count-none p [] all = refl
  count-none p (x ∷ xs) all = rw all.0 (count-none p xs all.1)

  pub count-most : (p : A → Bool) (xs : List A) → count p xs ≤ length xs
  count-most p [] = omega arith
  count-most p (x ∷ xs) = grind (arith, count-most p xs)
