-- ===== src/Consumer/Table.antt =====
-- The statement `INSERT … VALUES %s ON CONFLICT (key) DO NOTHING` of consumer/db.py over one table,
-- by a test that two rows have the same key. A table holds its rows in the order of insertion.
pub mod Laws
use eth_project.Prelude.{Bool, List, [], ◌∷◌, ◌++◌, any_of, if◌then◌else◌}

module _ {ℓ} {A : Type ℓ} (same : A → A → Bool) where
  unfoldable pub insert_row : A → List A → List A
  insert_row x t = if any_of (same x) t then t else t ++ (x ∷ [])

  unfoldable pub insert_rows : List A → List A → List A
  insert_rows [] t = t
  insert_rows (x ∷ xs) t = insert_rows xs (insert_row x t)
