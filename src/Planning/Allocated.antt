-- ===== src/Planning/Allocated.antt =====
-- What `_allocate_minutes_by_weight` gives the skills.

use i_bot_core_api_service.Prelude.{
  ◌≡◌, ◌∙◌, ℕ, zero, suc, ◌+◌, ◌-◌, ◌*◌, ◌/◌, ◌%◌, ◌≤◌, ◌<◌, min, false, List, [], ◌∷◌, map, length,
  All, ltb, ◌==◌, nat_eq, if◌then◌else◌, Bool-cases, inl, inr, arith,
}
use i_bot_core_api_service.Planning.Allocation.{
  Weights, Share, shares, sum, range, replicate, distribute, allocate_minutes_by_weight,
}
use i_bot_core_api_service.Planning.Units.{
  length-add_each, length-replicate, length-range, length-map, All-map,
}
use i_bot_core_api_service.Planning.Exact.{
  even_shares-sum, even_split-sum, IsAccurate, distribute_shares-sum, length-distribute_shares,
  indices-shares, length-shares,
}

sum-raised : (m : ℕ) (ds : List ℕ) → sum (map (λ extra. m + extra) ds) ≡ m * length ds + sum ds
sum-raised m [] = omega arith
sum-raised m (d ∷ ds) = omega (arith, sum-raised m ds)

raised : (m b : ℕ) (ds : List ℕ) → b ≤ m → All (λ d. b ≤ m + d) ds
raised m b [] h = tt
raised m b (d ∷ ds) h = (omega (arith, h), raised m b ds h)

refill : (total base : ℕ) → ltb total base ≡ false → base + (total - base) ≡ total
refill total base h = ground arith

even_least :
    (total m n k count : ℕ)
    → All
        (λ u. min m (total / n) ≤ u)
        (map (λ i. total / n + (if ltb i (total % n) then 1 else 0)) (range k count))
even_least total m n k zero = tt
even_least total m n k (suc count) = (omega arith, even_least total m n (suc k) count)

nonzero : (n : ℕ) → 0 < n → (n == 0) ≡ false
nonzero n h = ground arith

module _ (w : Weights) (total_units min_units : ℕ) (weights : List w.Float) where
  abbrev extra_units : ℕ
  extra_units = total_units - min_units * length weights

  -- The shares of the extra units that the weights get.
  abbrev pub weighed : List (Share w)
  weighed = shares w extra_units (w.sum_of (map w.boosted weights)) 0 (map w.boosted weights)

  length-weighed : length weighed ≡ length weights
  length-weighed =
      length-shares w extra_units (w.sum_of (map w.boosted weights)) 0 (map w.boosted weights)
      ∙ length-map w.boosted weights

  distribute-exact :
      0 < length weights
      → IsAccurate w extra_units weighed
      → (sum (distribute w extra_units weights) ≡ extra_units)
        × (length (distribute w extra_units weights) ≡ length weights)
  distribute-exact h a = elim (Bool-cases (w.is_positive (w.sum_of (map w.boosted weights)))) [
    | inl e ↦ rw e (
      distribute_shares-sum w extra_units weighed a (
          indices-shares w extra_units (w.sum_of (map w.boosted weights)) 0 (length weighed)
            (map w.boosted weights) (omega (arith, length-weighed, length-map w.boosted weights))),
      length-distribute_shares w extra_units weighed ∙ length-weighed,
    )
    | inr e ↦ rw e (
      even_split-sum extra_units (length weights) h,
      length-add_each (range 0 (extra_units % length weights))
            (replicate (length weights) (extra_units / length weights))
          ∙ length-replicate (length weights) (extra_units / length weights),
    )
  ]

  -- The skills get the whole technical time, one share each, and none gets less than its minimum, or,
  -- where the time is too short for every minimum, than the even share. (There is a skill, and the
  -- floats are accurate: the shares of the extra time, in exact arithmetic, sum up to it but for less
  -- than one unit.)
  pub allocate-exact :
      0 < length weights
      → IsAccurate w extra_units weighed
      → (sum (allocate_minutes_by_weight w total_units min_units weights) ≡ total_units)
        × (length (allocate_minutes_by_weight w total_units min_units weights) ≡ length weights)
        × All
            (λ units. min min_units (total_units / length weights) ≤ units)
            (allocate_minutes_by_weight w total_units min_units weights)
  unfolding allocate_minutes_by_weight
  allocate-exact h a =
      let some_skill : (length weights == 0) ≡ false = nonzero (length weights) h in
      let (exact, size) = distribute-exact h a in
      elim (Bool-cases (ltb total_units (min_units * length weights))) [
        | inl short ↦
            rw (some_skill, short)
              (
                even_shares-sum total_units (length weights) h,
                length-map _ (range 0 (length weights)) ∙ length-range 0 (length weights),
                even_least total_units min_units (length weights) 0 (length weights),
              )
        | inr enough ↦
            let restored : min_units * length (distribute w extra_units weights)
                  + sum (distribute w extra_units weights)
                ≡ total_units =
              rw (size, exact) (refill total_units (min_units * length weights) enough) in
            rw (some_skill, enough)
              (
                sum-raised min_units (distribute w extra_units weights) ∙ restored,
                length-map (λ extra. min_units + extra) (distribute w extra_units weights) ∙ size,
                All-map (λ extra. min_units + extra) _ (distribute w extra_units weights)
                    (raised min_units (min min_units (total_units / length weights))
                      (distribute w extra_units weights) (omega arith)),
              )
      ]
