-- ===== src/Violations/Ids.antt =====
-- Event ids: what `event_ids` collects of a record, and that a collected id stays.
use mathlib.Core.Path.{subst}
use i_bot_core_api_service.Prelude.{
  ◌≡◌, refl, sym, ap, String, true, false, List, [], ◌∷◌, ◌++◌, map, contains, ◌==◌, ==_self,
  string_eq, eq_iff, Bool-cases, inl, inr, arith,
}
use i_bot_core_api_service.Json.{Json, str, to_list, from_list, truthy}
use i_bot_core_api_service.Violations.{Python, text_or_empty, add_unique, add_all}

pub to_list-from_list : (items : List Json) → to_list (from_list items) ≡ items
to_list-from_list [] = refl
to_list-from_list (j ∷ items) = ap (λ rest. j ∷ rest) (to_list-from_list items)

pub text_or_empty-str : (py : Python) (s : String) → text_or_empty py (str s) ≡ s
unfolding text_or_empty truthy
text_or_empty-str py s = elim (Bool-cases (s == "")) [
  | inl e ↦ rw e (sym ((eq_iff s "").0 e))
  | inr e ↦ rw e refl
]

pub texts-of-strings :
    (py : Python) (ids : List String) → map (text_or_empty py) (map str ids) ≡ ids
texts-of-strings py [] = refl
texts-of-strings py (s ∷ ids) = rw (text_or_empty-str py s, texts-of-strings py ids) refl

pub contains-append :
    (id : String) (xs ys : List String) → contains id xs ≡ true → contains id (xs ++ ys) ≡ true
unfolding contains
contains-append id [] ys h = cc
contains-append id (x ∷ xs) ys h = ground (arith, contains-append id xs ys)

pub contains-last : (id : String) (xs : List String) → contains id (xs ++ id ∷ []) ≡ true
unfolding contains
contains-last id [] = rw (==_self id) refl
contains-last id (x ∷ xs) = ground (arith, contains-last id xs)

contains-add_unique :
    (id v : String) (xs : List String)
    → contains id xs ≡ true
    → contains id (add_unique xs v) ≡ true
contains-add_unique id v xs h = ground (arith, contains-append id xs (v ∷ []))

add_unique_self :
    (id : String) (xs : List String) → (id == "") ≡ false → contains id (add_unique xs id) ≡ true
add_unique_self id xs set = ground (arith, contains-last id xs)

contains-add_all :
    (id : String) (vs xs : List String) → contains id xs ≡ true → contains id (add_all xs vs) ≡ true
contains-add_all id [] xs h = h
contains-add_all id (v ∷ vs) xs h =
    contains-add_all id vs (add_unique xs v) (contains-add_unique id v xs h)

-- Every id among the values, unless it is empty, is collected.
pub add_all-contains :
    (id : String) (vs xs : List String)
    → (id == "") ≡ false
    → contains id vs ≡ true
    → contains id (add_all xs vs) ≡ true
unfolding contains
add_all-contains id [] xs set h = cc
add_all-contains id (v ∷ vs) xs set h = elim (Bool-cases (v == id)) [
  | inl e ↦ contains-add_all id vs (add_unique xs v) (
      subst (λ w. contains id (add_unique xs w) ≡ true) (sym ((eq_iff v id).0 e))
        (add_unique_self id xs set))
  | inr e ↦ add_all-contains id vs (add_unique xs v) set (rw e at h)
]
