-- ===== src/Pipeline/Tables.antt =====
-- The tables of the lake, one folder for each date: `write_silver` of silver/utils.py, `write_gold` of
-- gold/utils.py and `read_silver` of silver/spark_config.py. Both writers overwrite in Spark's mode
-- "dynamic", which the sessions of silver/spark_config.py and the specs of dags/utils ask for: the
-- folders of the dates that the rows have are replaced, the others are kept.
use eth_project.Prelude.{
  ℕ, ◌≡◌, Bool, true, false, Option, none, some, List, ◌==◌, if◌then◌else◌, non_empty, select,
}
use eth_project.Action.{Action, Result, ok, raised, os_error, cloud_error}

-- The rows of a date, or nothing where the date has no folder.
abbrev pub Table : Type 0 → Type 0
Table A = ℕ → Option (List A)

abbrev pub on_date : ℕ → Option ℕ → Bool
on_date d none = false
on_date d (some e) = d == e

module _ {A : Type 0} where
  abbrev pub rows_on : (A → Option ℕ) → ℕ → List A → List A
  rows_on dt d rows = select (λ r. on_date d (dt r)) rows

  unfoldable pub write_partitions : (A → Option ℕ) → List A → Table A → Table A
  write_partitions dt rows table d =
      if non_empty (rows_on dt d rows) then some (rows_on dt d rows) else table d

  -- A folder that has rows to come holds just them after the write.
  pub write_partitions-some :
      (dt : A → Option ℕ) (rows : List A) (table : Table A) (d : ℕ)
      → non_empty (rows_on dt d rows) ≡ true
      → write_partitions dt rows table d ≡ some (rows_on dt d rows)
  unfolding write_partitions
  write_partitions-some dt rows table d h = rw h

-- A write that ends, or one that raises and leaves some other table behind.
pub data Write (A : Type 0) : Type 0 where
  stored : Write A
  broken : Table A → Write A

module _ {A : Type 0} where
  unfoldable pub write_silver : Write A → (A → Option ℕ) → List A → Action (Table A) (Unit {0})
  write_silver stored dt rows table = (ok tt, write_partitions dt rows table)
  write_silver (broken left) dt rows table = (raised cloud_error, left)

  abbrev pub folder : Bool → Option (List A) → Result (List A)
  folder true (some rows) = ok rows
  folder true none = raised os_error
  folder false rows = raised cloud_error

  -- The read of one folder, which raises where it is missing or where the bucket fails.
  unfoldable pub read_silver : Bool → Table A → ℕ → Result (List A)
  read_silver readable table d = folder readable (table d)
