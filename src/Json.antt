-- ===== src/Json.antt =====
-- The values that `json.loads` returns, and what the Python code reads off them.
-- An integer literal is a number of any size; a literal with a fraction or an exponent, which
-- Python reads as a float, is kept as its decimal value m / 10 ^ e.
use eth_project.Prelude.{
  ℕ, String, Bool, true, false, not, Option, none, some, List, [], ◌∷◌, ℤ, pos, eqb_ℤ, str_eq,
  if◌then◌else◌,
}

mutual
  pub data Json : Type 0 where
    null : Json
    bool : Bool → Json
    int : ℤ → Json
    real : ℤ → ℕ → Json
    str : String → Json
    arr : Items → Json
    obj : Fields → Json

  pub data Items : Type 0 where
    nil : Items
    cons : Json → Items → Items

  pub data Fields : Type 0 where
    end : Fields
    field : String → Json → Fields → Fields

-- Python's `bool(v)`: what `if not v` tests.
unfoldable pub truthy : Json → Bool
truthy null = false
truthy (bool b) = b
truthy (int n) = not (eqb_ℤ n (pos 0))
truthy (real m e) = not (eqb_ℤ m (pos 0))
truthy (str s) = not (str_eq s "")
truthy (arr nil) = false
truthy (arr (cons x xs)) = true
truthy (obj end) = false
truthy (obj (field k v fs)) = true

-- The value of a key of a decoded object.
unfoldable pub get_field : String → Fields → Option Json
get_field k end = none
get_field k (field j v fs) = if str_eq j k then some v else get_field k fs

-- The first of several keys that is there, as pydantic's `AliasChoices` reads them.
unfoldable pub first_field : List String → Fields → Option Json
unfolding get_field
first_field [] fs = none
first_field (k ∷ ks) fs = elim (get_field k fs) [ some v ↦ some v | none ↦ first_field ks fs ]
