-- ===== src/Silver/Labels.antt =====
-- `load_address_labels` of silver/known_labels.py. The removal of duplicates is Spark's and keeps
-- one row of each address, which one is not said.
use eth_project.Prelude.{String, List, [], ◌∷◌, ◌++◌, Option, none, some, refl}
use eth_project.Frame.Joins.{IsUnique}

pub record Label : Type 0 where
  pub address : String
  pub label_name : String
  pub label_category : String

unfoldable pub manual_labels : List Label
manual_labels =
    (record {
      address = "0x000000000000000000000000000000000000dead";
      label_name = "Dead Address";
      label_category = "Burn";
    })
    ∷ (record {
      address = "0x0000000000000000000000000000000000000000";
      label_name = "Null Address";
      label_category = "Burn";
    })
    ∷ []

module _ (drop_duplicates : List Label → List Label) where
  -- The labels of the file, where it exists, with the manual ones.
  unfoldable pub load_address_labels : Option (List Label) → List Label
  load_address_labels none = manual_labels
  load_address_labels (some file) = drop_duplicates (file ++ manual_labels)

  -- No address has two labels, whether or not the file exists.
  pub labels-Unique :
      ((rows : List Label) → IsUnique Label.address (drop_duplicates rows))
      → (file : Option (List Label)) → IsUnique Label.address (load_address_labels file)
  unfolding load_address_labels manual_labels
  labels-Unique unique none = (refl, (refl, tt))
  labels-Unique unique (some file) = unique (file ++ manual_labels)
