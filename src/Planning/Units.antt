-- ===== src/Planning/Units.antt =====
-- Sums of units, and the loops that add one unit at an index.
use i_bot_core_api_service.Prelude.{
  ◌≡◌, refl, ap, ◌∙◌, ℕ, zero, suc, ◌+◌, ◌*◌, ◌≤◌, ◌<◌, min, Bool, List, [], ◌∷◌, map, length, All,
  ltb, if◌then◌else◌, Bool-cases, inl, inr, arith,
}
use i_bot_core_api_service.Order.{insert, order_by}
use i_bot_core_api_service.Planning.Allocation.{sum, range, replicate, take, add_one, add_each}

length-add_one : (i : ℕ) (ds : List ℕ) → length (add_one i ds) ≡ length ds
length-add_one i [] = refl
length-add_one zero (d ∷ ds) = refl
length-add_one (suc i) (d ∷ ds) = ap suc (length-add_one i ds)

sum-add_one : (i : ℕ) (ds : List ℕ) → i < length ds → sum (add_one i ds) ≡ suc (sum ds)
sum-add_one i [] h = omega (arith, h)
sum-add_one zero (d ∷ ds) h = omega arith
sum-add_one (suc i) (d ∷ ds) h = omega (arith, sum-add_one i ds (omega (arith, h)))

pub length-add_each : (is ds : List ℕ) → length (add_each is ds) ≡ length ds
length-add_each [] ds = refl
length-add_each (i ∷ is) ds = length-add_each is (add_one i ds) ∙ length-add_one i ds

pub sum-add_each :
    (is ds : List ℕ) → All (λ i. i < length ds) is → sum (add_each is ds) ≡ sum ds + length is
sum-add_each [] ds h = omega arith
sum-add_each (i ∷ is) ds h =
    omega
      (arith, sum-add_each is (add_one i ds) (rw (length-add_one i ds) h.1), sum-add_one i ds h.0)

pub length-replicate : (n x : ℕ) → length (replicate n x) ≡ n
length-replicate zero x = refl
length-replicate (suc n) x = ap suc (length-replicate n x)

pub sum-replicate : (n x : ℕ) → sum (replicate n x) ≡ x * n
sum-replicate zero x = omega arith
sum-replicate (suc n) x = omega (arith, sum-replicate n x)

pub length-range : (k n : ℕ) → length (range k n) ≡ n
length-range k zero = refl
length-range k (suc n) = ap suc (length-range (suc k) n)

pub All-range : (k n b : ℕ) → k + n ≤ b → All (λ i. i < b) (range k n)
All-range k zero b h = tt
All-range k (suc n) b h = (omega (arith, h), All-range (suc k) n b (omega (arith, h)))

pub sum-shares :
    (q r k n : ℕ)
    → sum (map (λ i. q + (if ltb i r then 1 else 0)) (range k n)) + min r k
      ≡ sum (replicate n q) + min r (k + n)
sum-shares q r k zero = omega arith
sum-shares q r k (suc n) = grind (arith, sum-shares q r (suc k) n)

module _ {A : Type 0} where
  All-insert :
      (p : A → A → Bool) (P : A → Type 0) (x : A) (xs : List A)
      → P x
      → All P xs
      → All P (insert p x xs)
  All-insert p P x [] h all = (h, tt)
  All-insert p P x (y ∷ ys) h all = elim (Bool-cases (p y x)) [
    | inl e ↦ rw e (all.0, All-insert p P x ys h all.1)
    | inr e ↦ rw e (h, all)
  ]

  pub All-order_by :
      (p : A → A → Bool) (P : A → Type 0) (xs : List A) → All P xs → All P (order_by p xs)
  All-order_by p P [] all = tt
  All-order_by p P (x ∷ xs) all = All-insert p P x (order_by p xs) all.0 (All-order_by p P xs all.1)

  pub All-take : (P : A → Type 0) (n : ℕ) (xs : List A) → All P xs → All P (take n xs)
  All-take P zero xs all = tt
  All-take P (suc n) [] all = tt
  All-take P (suc n) (x ∷ xs) all = (all.0, All-take P n xs all.1)

  pub length-take : (n : ℕ) (xs : List A) → n ≤ length xs → length (take n xs) ≡ n
  length-take zero xs h = refl
  length-take (suc n) [] h = omega (arith, h)
  length-take (suc n) (x ∷ xs) h = ap suc (length-take n xs (omega (arith, h)))

  pub length-map : {B : Type 0} (f : A → B) (xs : List A) → length (map f xs) ≡ length xs
  length-map f [] = refl
  length-map f (x ∷ xs) = ap suc (length-map f xs)

  pub All-map :
      (f : A → ℕ) (P : ℕ → Type 0) (xs : List A) → All (λ x. P (f x)) xs → All P (map f xs)
  All-map f P [] all = tt
  All-map f P (x ∷ xs) all = (all.0, All-map f P xs all.1)
