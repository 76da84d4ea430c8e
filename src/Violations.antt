-- ===== src/Violations.antt =====
-- The JSON records of transcript turns and violations: the helpers at the top of
-- src/data/repositories/interview_session_repository.py.
pub mod Replace
pub mod Append
pub mod Ids
pub mod Retry
use i_bot_core_api_service.Prelude.{
  ℕ, suc, String, Bool, true, false, ◌&&◌, ◌||◌, not, Option, none, some, List, [], ◌∷◌, ◌++◌, map,
  length, filter, contains, max_all, ◌==◌, string_eq, if◌then◌else◌,
}
use i_bot_core_api_service.Json.{
  Json, Fields, ℤ, pos, null, bool, int, real, str, arr, obj, end, to_list, get, truthy,
}
use i_bot_core_api_service.Db.{Uuid, Time, Result, ok, err, invalid_session_append, attribute_error}

-- Python's `str` of a value that is no string, `int` of one that is no integer and no Boolean
-- (`none` where it raises), `float` of an integer as a place in the order of floats, `str` of a UUID
-- and `isoformat` of a time.
pub record Python : Type 0 where
  pub repr : Json → String
  pub to_int : Json → Option ℤ
  pub to_float : ℤ → ℤ
  pub uuid_text : Uuid → String
  pub isoformat : Time → String

module _ (py : Python) where
  abbrev pub text_of : Json → String
  text_of (str s) = s
  text_of j = py.repr j

  -- `str(value or "")`
  unfoldable pub text_or_empty : Json → String
  text_or_empty j = if truthy j then text_of j else ""

  -- `int(value)`
  unfoldable pub int_of : Json → Option ℤ
  int_of (int z) = some z
  int_of (bool b) = some (if b then pos 1 else pos 0)
  int_of j = py.to_int j

abbrev pub as_fields : Json → Fields
as_fields (obj fs) = fs
as_fields _ = end

-- `_metadata`
unfoldable pub metadata : Json → Fields
metadata (obj fs) = as_fields (get "metadata" fs)
metadata _ = end

-- `_positive_int`
unfoldable pub positive_int : Json → Option ℕ
positive_int (int (pos (suc n))) = some (suc n)
positive_int _ = none

abbrev pub is_text : String → Json → Bool
is_text t (str s) = s == t
is_text t _ = false

-- `isinstance(item, dict) and item.get("violation_type") == violation_type`
unfoldable pub has_type : String → Json → Bool
has_type t (obj fs) = is_text t (get "violation_type" fs)
has_type t _ = false

abbrev pub tab_switch : String
tab_switch = "tab_switch"

abbrev add_count : Option ℕ → List ℕ → List ℕ
add_count none rest = rest
add_count (some n) rest = n ∷ rest

unfoldable pub declared_counts : List Json → List ℕ
declared_counts [] = []
declared_counts (item ∷ rest) =
    add_count (positive_int (get "occurrence_count" (metadata item)))
      (add_count (positive_int (get "tab_switch_count" (metadata item))) (declared_counts rest))

unfoldable pub count_tabs : List Json → ℕ
count_tabs items =
    let tabs = filter (has_type tab_switch) items in max_all (length tabs) (declared_counts tabs)

-- `tab_switch_count`
unfoldable pub tab_switch_count : Json → ℕ
tab_switch_count (arr items) = count_tabs (to_list items)
tab_switch_count _ = 0

abbrev elements : Json → List Json
elements (arr items) = to_list items
elements _ = []

abbrev pub add_unique : List String → String → List String
add_unique result value =
    if not (value == "") && not (contains value result) then result ++ value ∷ [] else result

abbrev pub add_all : List String → List String → List String
add_all result [] = result
add_all result (value ∷ rest) = add_all (add_unique result value) rest

module _ (py : Python) where
  -- The candidates of one item: `metadata["event_ids"]`, then the legacy `metadata["event_id"]`.
  unfoldable pub event_values : Json → List String
  event_values item =
      map (text_or_empty py) (elements (get "event_ids" (metadata item)))
      ++ text_or_empty py (get "event_id" (metadata item)) ∷ []

  abbrev event_ids_from : List String → List Json → List String
  event_ids_from result [] = result
  event_ids_from result (item ∷ rest) = event_ids_from (add_all result (event_values item)) rest

  -- `_event_ids`
  unfoldable pub event_ids : List Json → List String
  event_ids items = event_ids_from [] items

  -- `any(str(existing.get(id_key) or "") == item_id for existing in current)`, which raises at an
  -- entry that is no dict, unless an earlier one matched.
  unfoldable pub any_with_id : String → String → List Json → Result Bool
  any_with_id key id [] = ok false
  any_with_id key id (obj fs ∷ rest) =
      if text_or_empty py (get key fs) == id then ok true else any_with_id key id rest
  any_with_id key id (_ ∷ rest) = err attribute_error

  abbrev pub append_checked : List Json → Json → Result Bool → Result (List Json × Bool)
  append_checked current item (ok true) = ok (current, false)
  append_checked current item (ok false) = ok (current ++ item ∷ [], true)
  append_checked current item (err e) = err e

  -- `_append_unique`
  unfoldable pub append_unique : String → List Json → Fields → Result (List Json × Bool)
  append_unique key current item =
      let id = text_or_empty py (get key item) in
      if id == ""
      then err invalid_session_append
      else append_checked current (obj item) (any_with_id key id current)

-- `_replace_violation_type` from a point of its loop on.
unfoldable pub replace_from : String → Json → Bool → List Json → List Json
replace_from t replacement inserted [] = if inserted then [] else replacement ∷ []
replace_from t replacement inserted (item ∷ rest) =
    let later = replace_from t replacement (inserted || has_type t item) rest in
    if has_type t item then (if inserted then later else replacement ∷ later) else item ∷ later

unfoldable pub replace_violation_type : List Json → String → Json → List Json
replace_violation_type violations t replacement = replace_from t replacement false violations
