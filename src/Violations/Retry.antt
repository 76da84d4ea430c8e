-- ===== src/Violations/Retry.antt =====
-- `append_unique` over the items of one request, and over the items of a request that is sent again.
use i_bot_core_api_service.Prelude.{
  ◌≡◌, refl, String, Bool, true, false, List, [], ◌∷◌, ◌++◌, arith, inl, inr, string_eq,
}
use i_bot_core_api_service.Json.{Json, Fields, null, obj, get}
use i_bot_core_api_service.Db.{Result, ok, err, Result-cases}
use i_bot_core_api_service.Violations.{Python, text_or_empty, any_with_id, append_unique}
use i_bot_core_api_service.Violations.Append.{append_unique_idem}

abbrev pub with_record :
    Result (List Json × Bool) → (List Json → Result (List Json)) → Result (List Json)
with_record (ok (appended, fresh)) go_on = go_on appended
with_record (err e) go_on = err e

module _ (py : Python) (key : String) where
  -- The record after the appends of a list of items, and the first failure.
  unfoldable pub append_each : List Json → List Fields → Result (List Json)
  append_each current [] = ok current
  append_each current (item ∷ rest) =
      with_record (append_unique py key current item) λ appended. append_each appended rest

  -- The item is in the record: an append of it changes nothing.
  abbrev pub IsKnown : List Json → Fields → Type 0
  IsKnown current item = append_unique py key current item ≡ ok (current, false)

  -- An append that adds nothing leaves the record as it is.
  pub append_unique-known :
      (current appended : List Json) (item : Fields)
      → append_unique py key current item ≡ ok (appended, false)
      → current ≡ appended
  unfolding append_unique
  append_unique-known current appended item h =
      elim (Result-cases (any_with_id py key (text_or_empty py (get key item)) current)) [
        | inl (true, e) ↦ ground (arith, e)
        | inl (false, e) ↦ ground (arith, e)
        | inr (er, e) ↦ ground (arith, e)
      ]

  any_with_id-longer :
      (id : String) (x : Json) (current : List Json)
      → any_with_id py key id current ≡ ok true
      → any_with_id py key id (current ++ x ∷ []) ≡ ok true
  unfolding any_with_id
  any_with_id-longer id x [] h = cc
  any_with_id-longer id x (obj fs ∷ rest) h = ground (arith, any_with_id-longer id x rest)
  any_with_id-longer id x (null ∷ rest) h = cc
  any_with_id-longer id x (_ ∷ rest) h = cc

  IsKnown-longer :
      (x : Json) (current : List Json) (item : Fields)
      → IsKnown current item
      → IsKnown (current ++ x ∷ []) item
  unfolding append_unique
  IsKnown-longer x current item h =
      elim (Result-cases (any_with_id py key (text_or_empty py (get key item)) current)) [
        | inl (true, e) ↦ ground (arith, e, any_with_id-longer _ x current e)
        | inl (false, e) ↦ ground (arith, e)
        | inr (er, e) ↦ ground (arith, e)
      ]

  -- An append of another item keeps an item known.
  IsKnown-append :
      (current appended : List Json) (fresh : Bool) (item other : Fields)
      → append_unique py key current other ≡ ok (appended, fresh)
      → IsKnown current item
      → IsKnown appended item
  unfolding append_unique
  IsKnown-append current appended fresh item other h known =
      elim (Result-cases (any_with_id py key (text_or_empty py (get key other)) current)) [
        | inl (true, e) ↦ ground (arith, e)
        | inl (false, e) ↦ ground (arith, e, IsKnown-longer (obj other) current item known)
        | inr (er, e) ↦ ground (arith, e)
      ]

  IsKnown-each :
      (items : List Fields) (current appended : List Json) (item : Fields)
      → append_each current items ≡ ok appended
      → IsKnown current item
      → IsKnown appended item
  unfolding append_each
  IsKnown-each [] current appended item h known = ground (arith, known)
  IsKnown-each (other ∷ rest) current appended item h known =
      elim (Result-cases (append_unique py key current other)) [
        | inl ((next, fresh), e) ↦
            IsKnown-each rest next appended item (rw e at h)
              (IsKnown-append current next fresh item other e known)
        | inr (er, e) ↦ ground (arith, e)
      ]

  -- The items of a request that went through leave the record as it is the second time.
  pub append_each_idem :
      (items : List Fields) (current appended : List Json)
      → append_each current items ≡ ok appended
      → append_each appended items ≡ ok appended
  unfolding append_each
  append_each_idem [] current appended h = refl
  append_each_idem (item ∷ rest) current appended h =
      elim (Result-cases (append_unique py key current item)) [
        | inl ((next, fresh), e) ↦
            let later : append_each next rest ≡ ok appended = rw e at h in
            let known : IsKnown appended item =
              IsKnown-each rest next appended item later
                (append_unique_idem py key item current next fresh e) in
            rw known (append_each_idem rest next appended later)
        | inr (er, e) ↦ ground (arith, e)
      ]
