-- ===== src/Tests/Planning.antt =====
-- An interview of half an hour.
use i_bot_core_api_service.Planning.Allocation.{Weights, sum, allocate_minutes_by_weight}
use i_bot_core_api_service.Planning.Allocated.{allocate-exact}
use i_bot_core_api_service.Prelude.{
  ℕ, ◌+◌, ◌-◌, ◌*◌, ◌/◌, ◌≤◌, ◌≡◌, refl, ◌&&◌, ◌||◌, List, [], ◌∷◌, length, All, ltb, ◌==◌, nat_eq,
  arith,
}
use i_bot_core_api_service.Planning.{
  section_units, min_units_per_skill, target_skill_count, soft_cap_from, planned_skills-fit,
}

half_hour_skills : target_skill_count 30 (section_units 30).technical ≡ 5
unfolding target_skill_count section_units min_units_per_skill soft_cap_from
half_hour_skills = refl

two_minute_skills : target_skill_count 2 (section_units 2).technical ≡ 1
unfolding target_skill_count section_units min_units_per_skill soft_cap_from
two_minute_skills = refl

planned_skills-fit_example :
    let u = section_units 30 in
    let count = target_skill_count 30 u.technical in
    let least = min_units_per_skill 30 u.technical in
    (u.self_intro + u.behavioural + u.technical ≡ 300)
    × (1 ≤ count)
    × (count ≤ 7)
    × (15 ≤ least)
    × (count * least ≤ u.technical)
planned_skills-fit_example = planned_skills-fit 30 (ground arith)

-- Floats as hundredths.
abbrev hundredths : Weights
hundredths = record {
  Float = ℕ;
  boosted = λ x. x * x / 100;
  sum_of = sum;
  is_positive = λ x. ltb 0 x;
  scaled = λ extra x total. extra * 100 * x / total;
  int = λ x. x / 100;
  less = λ a b.
      let rest_a = a.0 - a.1 * 100 in
      let rest_b = b.0 - b.1 * 100 in ltb rest_a rest_b || rest_a == rest_b && ltb a.2 b.2;
}

abbrev three_weights : List ℕ
three_weights = 300 ∷ 200 ∷ 100 ∷ []

allocated : allocate_minutes_by_weight hundredths 200 25 three_weights ≡ 105 ∷ 61 ∷ 34 ∷ []
unfolding allocate_minutes_by_weight
allocated = refl

allocate-exact_example :
    (sum (allocate_minutes_by_weight hundredths 200 25 three_weights) ≡ 200)
    × (length (allocate_minutes_by_weight hundredths 200 25 three_weights) ≡ 3)
    × All (λ units. 25 ≤ units) (allocate_minutes_by_weight hundredths 200 25 three_weights)
allocate-exact_example = allocate-exact hundredths 200 25 three_weights (omega arith) (record {
  unit = 100;
  positive = omega arith;
  value = λ x. x;
  int_value = λ x. refl;
  below = omega arith;
  above = omega arith;
})
