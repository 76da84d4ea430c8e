-- ===== src/Violations/Replace.antt =====
-- What `replace_violation_type` does to the records of the type and to the others.
use i_bot_core_api_service.Prelude.{
  ◌≡◌, String, Bool, true, false, not, List, [], ◌∷◌, arith, filter, if◌then◌else◌,
}
use i_bot_core_api_service.Json.{Json}
use i_bot_core_api_service.Violations.{has_type, replace_from, replace_violation_type}

module _ (t : String) (r : Json) (typed : has_type t r ≡ true) where
  filter-replace_from :
      (inserted : Bool) (items : List Json)
      → filter (has_type t) (replace_from t r inserted items) ≡ (if inserted then [] else r ∷ [])
  unfolding filter replace_from
  filter-replace_from inserted [] = ground (arith, typed)
  filter-replace_from true (item ∷ rest) = ground (arith, typed, filter-replace_from true rest)
  filter-replace_from false (item ∷ rest) =
      ground (arith, typed, filter-replace_from true rest, filter-replace_from false rest)

  others-replace_from :
      (inserted : Bool) (items : List Json)
      → filter (λ j. not (has_type t j)) (replace_from t r inserted items)
        ≡ filter (λ j. not (has_type t j)) items
  unfolding filter replace_from
  others-replace_from inserted [] = ground (arith, typed)
  others-replace_from true (item ∷ rest) = ground (arith, typed, others-replace_from true rest)
  others-replace_from false (item ∷ rest) =
      ground (arith, typed, others-replace_from true rest, others-replace_from false rest)

  pub filter-replace_violation_type :
      (items : List Json) → filter (has_type t) (replace_violation_type items t r) ≡ r ∷ []
  unfolding replace_violation_type
  filter-replace_violation_type items = filter-replace_from false items

  pub others-replace_violation_type :
      (items : List Json)
      → filter (λ j. not (has_type t j)) (replace_violation_type items t r)
        ≡ filter (λ j. not (has_type t j)) items
  unfolding replace_violation_type
  others-replace_violation_type items = others-replace_from false items

  -- After a replacement by a record of the type, that record is the only one of its type, and the
  -- records of other types, and entries that are no dict, keep their order.
  pub replace_violation_type_lem :
      (items : List Json)
      → (filter (has_type t) (replace_violation_type items t r) ≡ r ∷ [])
        × (filter (λ j. not (has_type t j)) (replace_violation_type items t r)
            ≡ filter (λ j. not (has_type t j)) items)
  replace_violation_type_lem items =
      (filter-replace_violation_type items, others-replace_violation_type items)
