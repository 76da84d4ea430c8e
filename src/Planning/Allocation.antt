-- ===== src/Planning/Allocation.antt =====
-- `_allocate_minutes_by_weight` of src/utils/assessment_utils.py, in tenths of a minute.
use i_bot_core_api_service.Prelude.{
  ℕ, zero, suc, ◌+◌, ◌-◌, ◌*◌, ◌/◌, ◌%◌, Bool, List, [], ◌∷◌, map, length, leb, ltb, ◌==◌, nat_eq,
  if◌then◌else◌,
}
use i_bot_core_api_service.Order.{order_by}

-- What the allocation takes from Python's floats: `max(weight, 0.0) ** 2`, `sum`, `> 0`,
-- `extra_units * weight / total_weight`, `int` of a float that is not negative, and `<` of the
-- sorting keys `(scaled - distributed, boosted)`.
pub record Weights : Type 1 where
  pub Float : Type 0
  pub boosted : Float → Float
  pub sum_of : List Float → Float
  pub is_positive : Float → Bool
  pub scaled : ℕ → Float → Float → Float
  pub int : Float → ℕ
  pub less : Float × ℕ × Float → Float × ℕ × Float → Bool

abbrev pub sum : List ℕ → ℕ
sum [] = 0
sum (x ∷ xs) = x + sum xs

-- `range(k, k + n)`
abbrev pub range : ℕ → ℕ → List ℕ
range k zero = []
range k (suc n) = k ∷ range (suc k) n

abbrev pub replicate : ℕ → ℕ → List ℕ
replicate zero x = []
replicate (suc n) x = x ∷ replicate n x

abbrev pub take {ℓ} : {A : Type ℓ} → ℕ → List A → List A
take zero xs = []
take (suc n) [] = []
take (suc n) (x ∷ xs) = x ∷ take n xs

-- `distributed[index] += 1`
abbrev pub add_one : ℕ → List ℕ → List ℕ
add_one i [] = []
add_one zero (d ∷ ds) = suc d ∷ ds
add_one (suc i) (d ∷ ds) = d ∷ add_one i ds

abbrev pub add_each : List ℕ → List ℕ → List ℕ
add_each [] ds = ds
add_each (i ∷ is) ds = add_each is (add_one i ds)

-- `even + (1 if index < remainder else 0)`
abbrev pub even_shares : ℕ → ℕ → List ℕ
even_shares units n =
    map (λ index. units / n + (if ltb index (units % n) then 1 else 0)) (range 0 n)

-- The extra units when no weight is positive.
abbrev pub even_split : ℕ → ℕ → List ℕ
even_split units n = add_each (range 0 (units % n)) (replicate n (units / n))

-- `order[:remainder]`, where a negative remainder counts from the end.
abbrev pub first {ℓ} : {A : Type ℓ} → ℕ → ℕ → List A → List A
first whole given order =
    if leb given whole
    then take (whole - given) order
    else take (length order - (given - whole)) order

module _ (w : Weights) where
  pub record Share : Type 0 where
    pub index : ℕ
    pub boosted : w.Float
    pub scaled : w.Float

  abbrev pub shares : ℕ → w.Float → ℕ → List w.Float → List Share
  shares extra total k [] = []
  shares extra total k (b ∷ bs) =
      record { index = k; boosted = b; scaled = w.scaled extra b total }
      ∷ shares extra total (suc k) bs

  -- `sorted(..., reverse=True)`
  abbrev pub greater : Share → Share → Bool
  greater r s = w.less (s.scaled, w.int s.scaled, s.boosted) (r.scaled, w.int r.scaled, r.boosted)

  abbrev pub distribute_shares : ℕ → List Share → List ℕ
  distribute_shares extra rows =
      let distributed = map (λ r. w.int r.scaled) rows in
      add_each (first extra (sum distributed) (map (λ r. r.index) (order_by greater rows)))
        distributed

  abbrev pub distribute : ℕ → List w.Float → List ℕ
  distribute extra effective_weights =
      let boosted_weights = map w.boosted effective_weights in
      let total_weight = w.sum_of boosted_weights in
      if w.is_positive total_weight
      then distribute_shares extra (shares extra total_weight 0 boosted_weights)
      else even_split extra (length effective_weights)

  unfoldable pub allocate_minutes_by_weight : ℕ → ℕ → List w.Float → List ℕ
  allocate_minutes_by_weight total_units min_units_per_skill effective_weights =
      let skill_count = length effective_weights in
      if skill_count == 0
      then []
      else if ltb total_units (min_units_per_skill * skill_count)
      then even_shares total_units skill_count
      else map (λ extra. min_units_per_skill + extra)
          (distribute (total_units - min_units_per_skill * skill_count) effective_weights)
