-- ===== src/Frame.antt =====
-- Tables as lists of rows, and what the queries of the lake's layers do with them: joins, sums
-- over groups and distinct keys. A column that may be null is an Option, and a null address
-- is a group of its own but joins with nothing, as in Spark SQL.
pub mod Groups
pub mod Joins
pub mod Outer
pub mod Distinct
pub mod Orders
pub mod Parts
use mathlib.Core.List.{Permᴰ}
use eth_project.Prelude.{
  ℕ, ◌+◌, ◌≡◌, refl, String, str_eq, Bool, true, false, ◌&&◌, Option, none, some, List, [], ◌∷◌,
  ◌++◌, map, any_of, not, if◌then◌else◌,
}

abbrev pub Address : Type 0
Address = Option String

-- Equality of two keys of a group, where null is one key.
unfoldable pub same_key : Address → Address → Bool
same_key none none = true
same_key none (some b) = false
same_key (some a) none = false
same_key (some a) (some b) = str_eq a b

-- The condition of a join, which null never meets.
unfoldable pub joins : Address → String → Bool
joins none b = false
joins (some a) b = str_eq a b

unfoldable pub joins_key : Address → Address → Bool
joins_key a none = false
joins_key a (some b) = joins a b

-- An order by which the engine presents rows: any one, as long as no row is lost or made.
abbrev pub IsReordering {ℓ} : {A : Type ℓ} → (List A → List A) → Type ℓ
IsReordering {A = A} f = (rows : List A) → Permᴰ (f rows) rows

module _ {ℓ} {A : Type ℓ} where
  abbrev pub sum_by : (A → ℕ) → List A → ℕ
  sum_by f [] = 0
  sum_by f (x ∷ xs) = f x + sum_by f xs

  -- The matches of one row of a left join, or the row alone.
  unfoldable pub or_alone {κ} : {B : Type κ} → A → List B → List (A × Option B)
  or_alone x [] = (x, none) ∷ []
  or_alone x (y ∷ ys) = map (λ z. (x, some z)) (y ∷ ys)

  -- The rows of a key.
  abbrev pub of_key : (A → Address) → Address → List A → List A
  of_key key k [] = []
  of_key key k (x ∷ xs) =
      let rest = of_key key k xs in if same_key (key x) k then x ∷ rest else rest

abbrev pub has_key : Address → List Address → Bool
has_key k ks = any_of (same_key k) ks

unfoldable pub distinct_keys : List Address → List Address
distinct_keys [] = []
distinct_keys (k ∷ ks) = let rest = distinct_keys ks in if has_key k rest then rest else k ∷ rest

-- A number of a row that may be missing, as `fillna(0)` leaves it.
abbrev pub zero_if_null {ℓ} : {A : Type ℓ} → (A → ℕ) → Option A → ℕ
zero_if_null f none = 0
zero_if_null f (some x) = f x

-- The groups of a table whose rows are in one group as `same` says, by one row of each.
abbrev pub distinct_by {ℓ} : {A : Type ℓ} → (A → A → Bool) → List A → List A
distinct_by same [] = []
distinct_by same (x ∷ xs) =
    let rest = distinct_by same xs in if any_of (same x) rest then rest else x ∷ rest
