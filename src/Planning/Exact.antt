-- ===== src/Planning/Exact.antt =====
-- The allocation gives away the whole time, and no skill less than its minimum where that is enough.
use native.Mathlib.Nat.{div-add-mod', mod-lt, div-mul-le_self, lt_of_mul-lt-mul_right}
use i_bot_core_api_service.Prelude.{
  ◌≡◌, refl, ap, ◌∙◌, ℕ, suc, ◌+◌, ◌-◌, ◌*◌, ◌/◌, ◌%◌, ◌≤◌, ◌<◌, true, List, [], ◌∷◌, map, length,
  All, leb, nat_eq, arith,
}
use i_bot_core_api_service.Order.{order_by, length-order_by}
use i_bot_core_api_service.Planning.Allocation.{
  Weights, Share, shares, greater, sum, range, replicate, take, first, even_shares, even_split,
  distribute_shares,
}
use i_bot_core_api_service.Planning.Units.{
  sum-add_each, length-add_each, length-replicate, sum-replicate, length-range, All-range,
  sum-shares, All-order_by, All-take, length-take, length-map, All-map,
}

pub even_shares-sum : (units n : ℕ) → 0 < n → sum (even_shares units n) ≡ units
even_shares-sum units n h = omega (
  arith,
  sum-shares (units / n) (units % n) 0 n,
  sum-replicate n (units / n),
  mod-lt units h,
  div-add-mod' units n,
)

pub even_split-sum : (units n : ℕ) → 0 < n → sum (even_split units n) ≡ units
even_split-sum units n h =
    sum-add_each (range 0 (units % n)) (replicate n (units / n)) (
      rw (length-replicate n (units / n))
        (All-range 0 (units % n) n (omega (arith, mod-lt units h))))
    ∙ rw (length-range 0 (units % n), sum-replicate n (units / n)) (div-add-mod' units n)

floors_below : (u : ℕ) (vs : List ℕ) → sum (map (λ v. v / u) vs) * u ≤ sum vs
floors_below u [] = omega arith
floors_below u (v ∷ vs) = omega (arith, floors_below u vs, div-mul-le_self v u)

floors_above :
    (u : ℕ) (vs : List ℕ) → 0 < u → sum vs ≤ sum (map (λ v. v / u) vs) * u + length vs * u
floors_above u [] h = omega arith
floors_above u (v ∷ vs) h = omega (arith, floors_above u vs h, div-add-mod' v u, mod-lt v h)

-- The shares as exact multiples of one unit: `int` cuts them off, and rounding moves their sum by less
-- than one from the extra units.
pub record IsAccurate (w : Weights) (extra : ℕ) (rows : List (Share w)) : Type 0 where
  pub unit : ℕ
  pub positive : 0 < unit
  pub value : w.Float → ℕ
  pub int_value : (x : w.Float) → w.int x ≡ value x / unit
  pub below : sum (map (λ r. value r.scaled) rows) < (extra + 1) * unit
  pub above : extra * unit < sum (map (λ r. value r.scaled) rows) + unit

module _ (w : Weights) where
  abbrev wholes : List (Share w) → List ℕ
  wholes rows = map (λ r. w.int r.scaled) rows

  wholes-floors :
      (extra : ℕ) (all : List (Share w)) (a : IsAccurate w extra all) (rows : List (Share w))
      → wholes rows ≡ map (λ v. v / a.unit) (map (λ r. a.value r.scaled) rows)
  wholes-floors extra all a [] = refl
  wholes-floors extra all a (r ∷ rows) =
      rw (a.int_value r.scaled, wholes-floors extra all a rows) refl

  -- The units left over are not negative, and not more than the skills.
  left_over :
      (extra : ℕ) (rows : List (Share w))
      → IsAccurate w extra rows
      → (sum (wholes rows) ≤ extra) × (extra ≤ sum (wholes rows) + length rows)
  left_over extra rows a =
      let vs = map (λ r. a.value r.scaled) rows in
      let size : length vs ≡ length rows = length-map (λ r. a.value r.scaled) rows in
      let low = floors_below a.unit vs in
      let high = floors_above a.unit vs a.positive in
      let fit : sum (map (λ v. v / a.unit) vs) < extra + 1 =
        lt_of_mul-lt-mul_right a.unit (omega (arith, low, a.below)) in
      let enough : extra < sum (map (λ v. v / a.unit) vs) + length vs + 1 =
        lt_of_mul-lt-mul_right a.unit (omega (arith, high, a.above)) in
      rw (wholes-floors extra rows a rows) (omega (arith, fit), omega (arith, enough, size))

  within : (m n : ℕ) → m ≤ n → leb m n ≡ true
  within m n h = ground arith

  pub distribute_shares-sum :
      (extra : ℕ) (rows : List (Share w))
      → IsAccurate w extra rows
      → All (λ r. r.index < length rows) rows
      → sum (distribute_shares w extra rows) ≡ extra
  distribute_shares-sum extra rows a indices =
      let (fit, enough) = left_over extra rows a in
      let ds = wholes rows in
      let order = map (λ r. r.index) (order_by (greater w) rows) in
      let size : length order ≡ length rows =
        length-map (λ r. r.index) (order_by (greater w) rows) ∙ length-order_by (greater w) rows in
      let chosen : All (λ i. i < length ds) (take (extra - sum ds) order) =
        rw (length-map (λ r. w.int r.scaled) rows) (
          All-take (λ i. i < length rows) (extra - sum ds) order
            (All-map (λ r. r.index) (λ i. i < length rows) (order_by (greater w) rows)
              (All-order_by (greater w) (λ r. r.index < length rows) rows indices))) in
      rw (within (sum ds) extra fit) (
        sum-add_each (take (extra - sum ds) order) ds chosen
        ∙ omega (arith, length-take (extra - sum ds) order (omega (arith, enough, size)), fit))

  pub length-distribute_shares :
      (extra : ℕ) (rows : List (Share w)) → length (distribute_shares w extra rows) ≡ length rows
  length-distribute_shares extra rows =
      length-add_each
        (first extra (sum (wholes rows)) (map (λ r. r.index) (order_by (greater w) rows)))
        (wholes rows)
      ∙ length-map (λ r. w.int r.scaled) rows

  pub indices-shares :
      (extra : ℕ) (total : w.Float) (k b : ℕ) (bs : List w.Float)
      → k + length bs ≤ b
      → All (λ r. r.index < b) (shares w extra total k bs)
  indices-shares extra total k b [] h = tt
  indices-shares extra total k b (x ∷ bs) h =
      (omega (arith, h), indices-shares extra total (suc k) b bs (omega (arith, h)))

  pub length-shares :
      (extra : ℕ) (total : w.Float) (k : ℕ) (bs : List w.Float)
      → length (shares w extra total k bs) ≡ length bs
  length-shares extra total k [] = refl
  length-shares extra total k (x ∷ bs) = ap suc (length-shares extra total (suc k) bs)
