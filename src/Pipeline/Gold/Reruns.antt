-- ===== src/Pipeline/Gold/Reruns.antt =====
-- What repeated runs of a gold task leave in the bucket and in BigQuery.
use eth_project.Prelude.{
  ℕ, suc, ◌+◌, ◌<◌, ◌≡◌, refl, ap, sym, ◌∙◌, ◌⊎◌, inl, inr, Bool-cases, Bool, true, false, ◌&&◌,
  some, List, [], ◌∷◌, ◌++◌, map, All, arith, if◌then◌else◌, non_empty, zero,
}
use mathlib.Core.List.{append_assoc, append-nil}
use native.Mathlib.Nat.{zero-add}
use eth_project.Silver.Whales.{WhaleTxn}
use eth_project.Gold.Entities.{Arrange}
use eth_project.Gold.TopWhales.{TopWhale, build_top_whales_daily}
use eth_project.Pipeline.Tables.{
  Table, stored, write_silver, write_partitions-some, read_silver, rows_on,
}
use eth_project.Pipeline.Gold.{
  GoldTable, GoldEnv, write_gold, write_gold_to_bq, build_and_store, gold_task, gold_attempts,
  top_whales_daily_task,
}

module _ {A : Type 0} where
  rows_on_self : (d : ℕ) (rows : List A) → rows_on (λ _. some d) d rows ≡ rows
  rows_on_self d [] = refl
  rows_on_self d (r ∷ rows) = ground (arith, rows_on_self d rows)

  abbrev pub copies : ℕ → List (ℕ × A) → List (ℕ × A)
  copies zero rows = []
  copies (suc n) rows = rows ++ copies n rows

  copies-add :
      (b : Bool) (n : ℕ) (rows : List (ℕ × A))
      → copies (if b then 1 else 0) rows ++ copies n rows ≡ copies ((if b then 1 else 0) + n) rows
  copies-add true n rows = let e : 1 + n ≡ suc n = omega arith in rw (e, append-nil rows) refl
  copies-add false n rows = rw (zero-add n) refl

  -- An attempt that reaches BigQuery and is answered.
  abbrev pub loads : GoldEnv A → Bool
  loads env = env.session && (env.readable && env.load)

  -- How many attempts reach BigQuery.
  abbrev pub loads_of : List (GoldEnv A) → ℕ
  loads_of [] = 0
  loads_of (env ∷ envs) = (if loads env then 1 else 0) + loads_of envs

  abbrev pub IsWritten : GoldEnv A → Type 0
  IsWritten env = env.write ≡ stored

  module _ {S : Type 0} (build : List S → List A) (silver : Table S) (d : ℕ) (rows : List S)
      (found : silver d ≡ some rows) where
    -- The rows that one run appends, and those of its folder.
    abbrev pub loaded : List (ℕ × A)
    loaded = map (λ r. (d, r)) (build rows)

    abbrev pub own_folder : List A
    own_folder = build rows

    task_loads :
        (env : GoldEnv A) (s : GoldTable A)
        → env.write ≡ stored
        → (gold_task build silver d env s).1.bigquery
          ≡ s.bigquery ++ copies (if loads env then 1 else 0) loaded
    unfolding gold_task build_and_store read_silver write_gold write_gold_to_bq write_silver
    task_loads env s w = ground (arith, append-nil loaded, append-nil s.bigquery)

    attempts_load :
        (envs : List (GoldEnv A)) (s : GoldTable A)
        → All IsWritten envs
        → (gold_attempts (gold_task build silver d) envs s).bigquery
          ≡ s.bigquery ++ copies (loads_of envs) loaded
    unfolding gold_attempts
    attempts_load [] s w = sym (append-nil s.bigquery)
    attempts_load (env ∷ envs) s w =
        attempts_load envs (gold_task build silver d env s).1 w.1
        ∙ (ap (λ l. l ++ copies (loads_of envs) loaded) (task_loads env s w.0)
            ∙ (append_assoc s.bigquery (copies (if loads env then 1 else 0) loaded)
                  (copies (loads_of envs) loaded)
                ∙ ap (λ l. s.bigquery ++ l) (copies-add (loads env) (loads_of envs) loaded)))

    task_folder :
        (env : GoldEnv A) (s : GoldTable A)
        → env.write ≡ stored
        → non_empty own_folder ≡ true
        → (loads env ≡ true) ⊎ (s.folders d ≡ some own_folder)
        → (gold_task build silver d env s).1.folders d ≡ some own_folder
    unfolding gold_task build_and_store read_silver write_gold write_gold_to_bq write_silver
    task_folder env s w n h = ground (
      arith,
      write_partitions-some (λ _. some d) (build rows) s.folders d
          (ap non_empty (rows_on_self d (build rows)) ∙ n),
      rows_on_self d (build rows),
    )

    later :
        (env : GoldEnv A) (envs : List (GoldEnv A)) (s : GoldTable A)
        → env.write ≡ stored
        → non_empty own_folder ≡ true
        → (0 < loads_of (env ∷ envs)) ⊎ (s.folders d ≡ some own_folder)
        → (0 < loads_of envs) ⊎ ((gold_task build silver d env s).1.folders d ≡ some own_folder)
    later env envs s w n (inr f) = inr (task_folder env s w n (inr f))
    later env envs s w n (inl l) = elim (Bool-cases (loads env)) [
      | inl e ↦ inr (task_folder env s w n (inl e))
      | inr e ↦ inl (ground (arith, rw e at l))
    ]

    attempts_folder :
        (envs : List (GoldEnv A)) (s : GoldTable A)
        → All IsWritten envs
        → non_empty own_folder ≡ true
        → (0 < loads_of envs) ⊎ (s.folders d ≡ some own_folder)
        → (gold_attempts (gold_task build silver d) envs s).folders d ≡ some own_folder
    unfolding gold_attempts
    attempts_folder [] s w n h = ground (arith, h)
    attempts_folder (env ∷ envs) s w n h =
        attempts_folder envs (gold_task build silver d env s).1 w.1 n (later env envs s w.0 n h)

-- However often the daily task of the whales runs for a date, failed attempts with it: its folder in
-- the bucket holds the rows of the date once, and BigQuery holds them once more for each attempt that
-- reached it; if its reads succeed at least once, no write breaks, and the date has whales.
pub whale_reruns :
    (arrange : Arrange) (silver : Table WhaleTxn) (d : ℕ) (rows : List WhaleTxn)
    (envs : List (GoldEnv TopWhale)) (s : GoldTable TopWhale)
    → silver d ≡ some rows
    → non_empty (build_top_whales_daily arrange rows) ≡ true
    → All IsWritten envs
    → 0 < loads_of envs
    → ((gold_attempts (top_whales_daily_task arrange silver d) envs s).folders d
        ≡ some (build_top_whales_daily arrange rows))
      × ((gold_attempts (top_whales_daily_task arrange silver d) envs s).bigquery
          ≡ s.bigquery
            ++ copies (loads_of envs) (map (λ r. (d, r)) (build_top_whales_daily arrange rows)))
unfolding top_whales_daily_task
whale_reruns arrange silver d rows envs s found n w l = (
  attempts_folder (build_top_whales_daily arrange) silver d rows found envs s w n (inl l),
  attempts_load (build_top_whales_daily arrange) silver d rows found envs s w,
)
