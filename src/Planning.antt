-- ===== src/Planning.antt =====
-- How src/utils/assessment_utils.py divides an interview's time: the units of
-- `_normalize_interview_plan_timing`, tenths of a minute, and the number of technical skills.
pub mod Allocation
pub mod Units
pub mod Exact
pub mod Allocated
use native.Mathlib.Nat.{mul-le-mul_right, div-mul-le_self, le_trans}
use i_bot_core_api_service.Prelude.{
  ℕ, ◌+◌, ◌-◌, ◌*◌, ◌/◌, ◌≤◌, min, max, ◌≡◌, List, [], ◌∷◌, leb, zero, suc, ◌==◌, nat_eq,
  if◌then◌else◌, arith,
}

-- `self_intro_units`, `behavioural_units` and `technical_units`
pub record SectionUnits : Type 0 where
  pub self_intro : ℕ
  pub behavioural : ℕ
  pub technical : ℕ

unfoldable pub section_units : ℕ → SectionUnits
section_units total_mins = record {
  self_intro = min total_mins 15;
  behavioural = total_mins;
  technical = total_mins * 10 - min total_mins 15 - total_mins;
}

-- `_min_minutes_per_skill`, in units.
unfoldable pub min_units_per_skill : ℕ → ℕ → ℕ
min_units_per_skill total_mins technical_units =
    if technical_units == 0
    then 0
    else if leb total_mins 5
    then 15
    else if leb total_mins 10
    then 20
    else if leb total_mins 15
    then 20
    else if leb total_mins 30
    then 25
    else 30

abbrev duration_soft_caps : List (ℕ × ℕ)
duration_soft_caps =
    (2, 1)
    ∷ (3, 1)
    ∷ (4, 2)
    ∷ (5, 2)
    ∷ (8, 2)
    ∷ (10, 3)
    ∷ (15, 3)
    ∷ (20, 4)
    ∷ (30, 5)
    ∷ (45, 6)
    ∷ (60, 7)
    ∷ []

-- The loop over the thresholds, in ascending order.
unfoldable pub soft_cap_from : ℕ → List (ℕ × ℕ) → ℕ
soft_cap_from total_mins [] = 7
soft_cap_from total_mins ((threshold, cap) ∷ rest) =
    if leb total_mins threshold then cap else soft_cap_from total_mins rest

-- `_target_skill_count`; the quotient of two numbers of units is that of the minutes.
unfoldable pub target_skill_count : ℕ → ℕ → ℕ
target_skill_count total_mins technical_units =
    let hard_cap_by_time =
      max 1 (technical_units / min_units_per_skill total_mins technical_units) in
    if technical_units == 0
    then 0
    else max 1 (min hard_cap_by_time (soft_cap_from total_mins duration_soft_caps))

max_one : (count : ℕ) → max 1 (suc count) ≡ suc count
max_one count = ground arith

at_least_one-fits : (count m units : ℕ) → m ≤ units → count * m ≤ units → max 1 count * m ≤ units
at_least_one-fits zero m units h k = ground arith
at_least_one-fits (suc count) m units h k = rw (max_one count) k

min_units-fits :
    (total_mins : ℕ)
    → 2 ≤ total_mins
    → min_units_per_skill total_mins (section_units total_mins).technical
      ≤ (section_units total_mins).technical
unfolding min_units_per_skill section_units
min_units-fits total_mins long = ground arith

min_units-least :
    (total_mins : ℕ)
    → 2 ≤ total_mins
    → 15 ≤ min_units_per_skill total_mins (section_units total_mins).technical
unfolding min_units_per_skill section_units
min_units-least total_mins long = ground arith

soft_cap-bounds : (total_mins : ℕ) → soft_cap_from total_mins duration_soft_caps ≤ 7
unfolding soft_cap_from
soft_cap-bounds total_mins = ground arith

technical-positive : (total_mins : ℕ) → 2 ≤ total_mins → 1 ≤ (section_units total_mins).technical
unfolding section_units
technical-positive total_mins long = ground arith

sections-sum :
    (total_mins : ℕ)
    → let u = section_units total_mins in
      u.self_intro + u.behavioural + u.technical ≡ total_mins * 10
unfolding section_units
sections-sum total_mins = ground arith

clamped-bounds :
    (quotient cap : ℕ)
    → (1 ≤ max 1 (min (max 1 quotient) cap)) × (max 1 (min (max 1 quotient) cap) ≤ max 1 quotient)
clamped-bounds quotient cap = (ground arith, ground arith)

target-bounds :
    (total_mins units : ℕ)
    → 1 ≤ units
    → let count = target_skill_count total_mins units in
      (1 ≤ count) × (count ≤ 7) × (count ≤ max 1 (units / min_units_per_skill total_mins units))
unfolding target_skill_count
target-bounds total_mins units some_time =
    let quotient = units / min_units_per_skill total_mins units in
    let cap = soft_cap_from total_mins duration_soft_caps in
    let capped = soft_cap-bounds total_mins in
    let bounds = clamped-bounds quotient cap in
    (ground (arith, bounds), ground (arith, capped), ground (arith, bounds))

-- For an interview of two minutes or more, the bounds of the request's schema, the three sections
-- together take the whole time, between one and seven technical skills are planned, and the
-- technical section has at least the minimum of a minute and a half for each of them.
pub planned_skills-fit :
    (total_mins : ℕ)
    → 2 ≤ total_mins
    → let u = section_units total_mins in
      let count = target_skill_count total_mins u.technical in
      let least = min_units_per_skill total_mins u.technical in
      (u.self_intro + u.behavioural + u.technical ≡ total_mins * 10)
      × (1 ≤ count)
      × (count ≤ 7)
      × (15 ≤ least)
      × (count * least ≤ u.technical)
planned_skills-fit total_mins long =
    let technical = (section_units total_mins).technical in
    let least = min_units_per_skill total_mins technical in
    let (one, seven, hard) =
      target-bounds total_mins technical (technical-positive total_mins long) in
    (
      sections-sum total_mins,
      one,
      seven,
      min_units-least total_mins long,
      le_trans (mul-le-mul_right least hard) (
          at_least_one-fits (technical / least) least technical (min_units-fits total_mins long)
            (div-mul-le_self technical least)),
    )
