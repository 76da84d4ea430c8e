-- ===== src/Violations/Append.antt =====
-- `append_unique` as an idempotent append.
use i_bot_core_api_service.Prelude.{
  ◌≡◌, String, Bool, true, false, List, [], ◌∷◌, ◌++◌, arith, inl, inr, string_eq, ==_self,
}
use i_bot_core_api_service.Json.{Json, Fields, null, obj, get}
use i_bot_core_api_service.Db.{ok, Result-cases}
use i_bot_core_api_service.Violations.{Python, text_or_empty, any_with_id, append_unique}

module _ (py : Python) (key : String) (item : Fields) where
  -- Once the item is appended, its id is found.
  any_with_id-append :
      (current : List Json)
      → any_with_id py key (text_or_empty py (get key item)) current ≡ ok false
      → any_with_id py key (text_or_empty py (get key item)) (current ++ obj item ∷ []) ≡ ok true
  unfolding any_with_id
  any_with_id-append [] h = ground (arith, ==_self (text_or_empty py (get key item)))
  any_with_id-append (obj fs ∷ rest) h = ground (arith, any_with_id-append rest)
  any_with_id-append (null ∷ rest) h = cc
  any_with_id-append (_ ∷ rest) h = cc

  -- A second append of the item that the first call was given changes nothing and reports so.
  pub append_unique_idem :
      (current appended : List Json) (fresh : Bool)
      → append_unique py key current item ≡ ok (appended, fresh)
      → append_unique py key appended item ≡ ok (appended, false)
  unfolding append_unique
  append_unique_idem current appended fresh h =
      elim (Result-cases (any_with_id py key (text_or_empty py (get key item)) current)) [
        | inl (true, e) ↦ ground (arith, e)
        | inl (false, e) ↦ ground (arith, e, any_with_id-append current e)
        | inr (x, e) ↦ ground (arith, e)
      ]
