-- ===== src/Json.antt =====
-- JSON values, as PostgreSQL's JSONB columns hold them and Python's `dict`, `list` and scalars
-- carry them.
use i_bot_core_api_service.Prelude.{
  ℕ, String, Bool, true, false, List, [], ◌∷◌, ◌==◌, string_eq, leb, if◌then◌else◌,
}

-- `negsuc n` is -(n + 1).
pub data ℤ : Type 0 where
  pos : ℕ → ℤ
  negsuc : ℕ → ℤ

-- max(0, int(x))
abbrev pub max_zero : ℤ → ℕ
max_zero (pos n) = n
max_zero (negsuc _) = 0

abbrev pub leb_ℤ : ℤ → ℤ → Bool
leb_ℤ (pos m) (pos n) = leb m n
leb_ℤ (pos m) (negsuc n) = false
leb_ℤ (negsuc m) (pos n) = true
leb_ℤ (negsuc m) (negsuc n) = leb n m

abbrev pub min_ℤ : ℤ → ℤ → ℤ
min_ℤ a b = if leb_ℤ a b then a else b

abbrev pub max_ℤ : ℤ → ℤ → ℤ
max_ℤ a b = if leb_ℤ b a then a else b

-- A float occurs only where values are compared or passed on: `real` holds its place in the order
-- of the finite floats, `pos 0` for 0.0.
mutual
  pub data Json : Type 0 where
    null : Json
    bool : Bool → Json
    int : ℤ → Json
    real : ℤ → Json
    str : String → Json
    arr : Items → Json
    obj : Fields → Json

  pub data Items : Type 0 where
    nil : Items
    item : Json → Items → Items

  pub data Fields : Type 0 where
    end : Fields
    field : String → Json → Fields → Fields

abbrev pub to_list : Items → List Json
to_list nil = []
to_list (item j js) = j ∷ to_list js

abbrev pub from_list : List Json → Items
from_list [] = nil
from_list (j ∷ js) = item j (from_list js)

-- `{"a": 1, ...}`
abbrev pub dict : List (String × Json) → Fields
dict [] = end
dict ((k, v) ∷ rest) = field k v (dict rest)

-- `d.get(k)`, where an absent key and a `None` are both `null`.
unfoldable pub get : String → Fields → Json
get k end = null
get k (field j v rest) = if j == k then v else get k rest

-- Python's truth of a value, which `x or y` and `if x` test.
unfoldable pub truthy : Json → Bool
truthy null = false
truthy (bool b) = b
truthy (int (pos ℕ.zero)) = false
truthy (real (pos ℕ.zero)) = false
truthy (str s) = if s == "" then false else true
truthy (arr nil) = false
truthy (obj end) = false
truthy _ = true
