-- ===== src/Interviews/TabRecord.antt =====
-- What a stored tab switch record says of itself.
use i_bot_core_api_service.Prelude.{
  ℕ, ◌+◌, ◌≡◌, refl, String, true, false, some, List, [], ◌∷◌, ◌++◌, contains, filter, max_all,
  ◌==◌, string_eq, arith,
}
use i_bot_core_api_service.Json.{Json, ℤ, pos, int, get}
use i_bot_core_api_service.Db.{Time}
use i_bot_core_api_service.Violations.{
  Python, metadata, positive_int, has_type, tab_switch, declared_counts, count_tabs, event_ids,
  event_values,
}
use i_bot_core_api_service.Violations.Ids.{
  to_list-from_list, texts-of-strings, contains-append, add_all-contains,
}
use i_bot_core_api_service.Interviews.TabSwitch.{tab_metadata, tab_record}

module _ (py : Python) (turn : ℤ) (n : ℕ) (ids : List String) (first : String) (t : Time) where
  pub tab_record-has_type : has_type tab_switch (tab_record py turn n ids first t) ≡ true
  unfolding has_type tab_record get
  tab_record-has_type = refl

  metadata-tab_record : metadata (tab_record py turn n ids first t) ≡ tab_metadata py n ids first t
  unfolding metadata tab_record get
  metadata-tab_record = refl

  pub event_ids-tab_record :
      (id : String)
      → (id == "") ≡ false
      → contains id ids ≡ true
      → contains id (event_ids py (tab_record py turn n ids first t ∷ [])) ≡ true
  unfolding event_ids event_values tab_metadata get
  event_ids-tab_record id set h = rw metadata-tab_record (
      rw (to_list-from_list, texts-of-strings py ids)
        (add_all-contains id (ids ++ _ ∷ []) [] set (contains-append id ids _ h)))

positive_int-suc : (n : ℕ) → positive_int (int (pos (n + 1))) ≡ some (n + 1)
unfolding positive_int
positive_int-suc n = ground arith

-- The count that a record declares is the count of tab switches, where it is the only one.
pub count_tabs-tab_record :
    (py : Python) (turn : ℤ) (n : ℕ) (ids : List String) (first : String) (t : Time)
    (items : List Json)
    → filter (has_type tab_switch) items ≡ tab_record py turn (n + 1) ids first t ∷ []
    → count_tabs items ≡ n + 1
unfolding count_tabs declared_counts max_all tab_metadata get
count_tabs-tab_record py turn n ids first t items h =
    rw (h, metadata-tab_record py turn (n + 1) ids first t) (rw (positive_int-suc n) (omega arith))
