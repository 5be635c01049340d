-- ===== src/Address/Collected.antt =====
-- `fetch_labels` of address/fetch_known_labels.py, from the decoded file of labels. `clean` is
-- str.lower and str.strip, and the order of the sorted frame is pandas's.
use eth_project.Prelude.{
  ℕ, ◌≡◌, refl, inl, inr, Bool, false, ◌&&◌, Option, none, some, List, [], ◌∷◌, String, str_eq,
  any_of, Bool-cases, arith, if◌then◌else◌, ◌==◌,
}
use eth_project.Address.Labels.{resolve_category}
use eth_project.Frame.Joins.{IsUnique}

-- The value of an address: a dictionary with its name and labels, each with its default, or another value.
pub data Info : Type 0 where
  dict : Option String → Option (List String) → Info
  other_value : Info

pub record LabelRow : Type 0 where
  pub address : String
  pub name : String
  pub category : String

module _ (clean : String → String) (starts_with_0x : String → Bool) (len : String → ℕ) where
  unfoldable pub is_address : String → Bool
  is_address addr = starts_with_0x addr && (len addr == 42)

  unfoldable pub name_or_empty : Option String → String
  name_or_empty none = ""
  name_or_empty (some n) = n

  unfoldable pub labels_or_empty : Option (List String) → List String
  labels_or_empty none = []
  labels_or_empty (some ls) = ls

  -- The row of one entry, if it has one.
  unfoldable pub label_row : String → Info → Option LabelRow
  label_row address other_value = none
  label_row address (dict name labels) =
      if is_address (clean address)
      then elim (resolve_category (labels_or_empty labels)) [
        | none ↦ none
        | some category ↦
            some
              (record { address = clean address; name = name_or_empty name; category = category })
      ]
      else none

  unfoldable pub or_skip : Option LabelRow → List LabelRow → List LabelRow
  or_skip none rows = rows
  or_skip (some r) rows = r ∷ rows

  unfoldable pub label_rows : List (String × Info) → List LabelRow
  label_rows [] = []
  label_rows ((address, info) ∷ data_) = or_skip (label_row address info) (label_rows data_)

  unfoldable pub without_address : String → List LabelRow → List LabelRow
  without_address a [] = []
  without_address a (r ∷ rows) =
      let rest = without_address a rows in if str_eq a (LabelRow.address r) then rest else r ∷ rest

  -- `drop_duplicates(subset=["address"])` keeps the first row of each address: rows by rows from the front, with those before it removed from the rest.
  unfoldable pub drop_duplicates : List LabelRow → List LabelRow
  drop_duplicates [] = []
  drop_duplicates (r ∷ rows) = r ∷ without_address (LabelRow.address r) (drop_duplicates rows)

  -- The frame, or `none` where it is empty and so has no column to drop duplicates by.
  unfoldable pub fetch_labels :
      (List LabelRow → List LabelRow) → List (String × Info) → Option (List LabelRow)
  fetch_labels sort data_ = elim (label_rows data_) [
    | [] ↦ none
    | r ∷ rows ↦ some (sort (drop_duplicates (r ∷ rows)))
  ]

  absent :
      (a : String) (rows : List LabelRow)
      → any_of (λ z. str_eq a (LabelRow.address z)) (without_address a rows) ≡ false
  unfolding without_address
  absent a [] = refl
  absent a (r ∷ rows) = ground (arith, absent a rows)

  absent_still :
      (b a : String) (rows : List LabelRow)
      → any_of (λ z. str_eq b (LabelRow.address z)) rows ≡ false
      → any_of (λ z. str_eq b (LabelRow.address z)) (without_address a rows) ≡ false
  unfolding without_address
  absent_still b a [] h = refl
  absent_still b a (r ∷ rows) h = ground (arith, absent_still b a rows, h)

  without_address-IsUnique :
      (a : String) (rows : List LabelRow)
      → IsUnique LabelRow.address rows
      → IsUnique LabelRow.address (without_address a rows)
  unfolding without_address
  without_address-IsUnique a [] h = tt
  without_address-IsUnique a (r ∷ rows) h = elim (Bool-cases (str_eq a (LabelRow.address r))) [
    | inl e ↦ rw e (without_address-IsUnique a rows h.1)
    | inr e ↦
        rw e (absent_still (LabelRow.address r) a rows h.0, without_address-IsUnique a rows h.1)
  ]

  -- No address has two rows once the duplicates are dropped.
  pub drop_duplicates-IsUnique :
      (rows : List LabelRow) → IsUnique LabelRow.address (drop_duplicates rows)
  unfolding drop_duplicates
  drop_duplicates-IsUnique [] = tt
  drop_duplicates-IsUnique (r ∷ rows) = (
    absent (LabelRow.address r) (drop_duplicates rows),
    without_address-IsUnique (LabelRow.address r) (drop_duplicates rows)
        (drop_duplicates-IsUnique rows),
  )
