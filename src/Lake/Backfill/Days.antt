-- ===== src/Lake/Backfill/Days.antt =====
-- The loop over the days ends, and has each day of the range once.
use mathlib.Core.List.{append_assoc, append-nil}
use eth_project.Prelude.{
  ℕ, zero, suc, ◌+◌, ◌-◌, ◌≤◌, ◌<◌, ◌≡◌, refl, ap, ◌∙◌, Bool, true, false, some, List, [], ◌∷◌,
  ◌++◌, String, str_eq, leb, ltb, arith, Bool-cases, inl, inr, any_of, ◌==◌, any_of-append, ◌&&◌,
  ◌||◌,
}
use eth_project.Lake.Backfill.{
  ExportTask, Export, export_tasks, export_day, backfill_from, run_backfill,
}

or-false : (b : Bool) → (b || false) ≡ b
or-false true = refl
or-false false = refl

module _ (returns : String → ℕ → Bool) where
  -- The exports of `n` days from `current` on.
  abbrev pub exports_of : (n current : ℕ) → List Export
  exports_of zero current = []
  exports_of (suc n) current = export_day returns export_tasks current ++ exports_of n (current + 1)

  backfill_from_lem :
      (n fuel current end_ : ℕ) (stored : List Export)
      → n < fuel
      → current + n ≡ end_ + 1
      → backfill_from returns fuel current end_ stored ≡ some (stored ++ exports_of n current)
  unfolding backfill_from
  backfill_from_lem n zero current end_ stored f e = absurd (omega arith)
  backfill_from_lem zero (suc fuel) current end_ stored f e = rw (append-nil stored) (ground arith)
  backfill_from_lem (suc n) (suc fuel) current end_ stored f e =
      elim (Bool-cases (leb current end_)) [
        | inr h ↦ absurd (ground (arith, h))
        | inl h ↦ rw h (
            backfill_from_lem n fuel (current + 1) end_
              (stored ++ export_day returns export_tasks current) (omega arith) (omega arith)
            ∙ ap some (
                append_assoc stored (export_day returns export_tasks current)
                  (exports_of n (current + 1))))
      ]

  -- Whether the list has the export of a folder for a day.
  abbrev pub has_export : String → ℕ → List Export → Bool
  has_export folder day l = any_of (λ x. str_eq (Export.folder x) folder && (Export.day x == day)) l

  export_day-other :
      (ts : List ExportTask) (folder : String) (day other : ℕ)
      → (other == day) ≡ false
      → has_export folder day (export_day returns ts other) ≡ false
  unfolding export_day
  export_day-other [] folder day other h = refl
  export_day-other (t ∷ ts) folder day other h =
      ground (arith, h, export_day-other ts folder day other h)

  exports_of-other :
      (n current : ℕ) (folder : String) (day : ℕ)
      → day < current
      → has_export folder day (exports_of n current) ≡ false
  exports_of-other zero current folder day h = refl
  exports_of-other (suc n) current folder day h = ground (
    arith,
    any_of-append (λ x. str_eq (Export.folder x) folder && (Export.day x == day))
        (export_day returns export_tasks current) (exports_of n (current + 1)),
    export_day-other export_tasks folder day current,
    exports_of-other n (current + 1) folder day,
  )

  exports_of-day :
      (n current : ℕ) (folder : String) (day : ℕ)
      → current ≤ day
      → day < current + n
      → has_export folder day (exports_of n current)
        ≡ has_export folder day (export_day returns export_tasks day)
  exports_of-day zero current folder day l h = absurd (omega arith)
  exports_of-day (suc n) current folder day l h =
      any_of-append (λ x. str_eq (Export.folder x) folder && (Export.day x == day))
        (export_day returns export_tasks current) (exports_of n (current + 1))
      ∙ (elim (Bool-cases (current == day)) [
        | inl e ↦
            (let same : current ≡ day = ground (arith, e) in
              rw (exports_of-other n (current + 1) folder day (omega (arith, same)))
                (rw same (or-false _)))
        | inr e ↦
            rw (export_day-other export_tasks folder day current e)
              (exports_of-day n (current + 1) folder day (ground (arith, e)) (omega arith))
      ])

  -- The exports of a day are those of the tasks that return.
  export_day-same :
      (ts : List ExportTask) (folder : String) (day : ℕ)
      → has_export folder day (export_day returns ts day)
        ≡ any_of (λ t. str_eq (ExportTask.folder t) folder && returns (ExportTask.folder t) day) ts
  unfolding export_day
  export_day-same [] folder day = refl
  export_day-same (t ∷ ts) folder day = ground (arith, export_day-same ts folder day)

-- The days of a range.
abbrev pub in_range : ℕ → ℕ → ℕ → Bool
in_range start n day = leb start day && ltb day (start + n)

module _ (returns : String → ℕ → Bool) where
  exports_of-late :
      (n current : ℕ) (folder : String) (day : ℕ)
      → current + n ≤ day
      → has_export returns folder day (exports_of returns n current) ≡ false
  exports_of-late zero current folder day h = refl
  exports_of-late (suc n) current folder day h = ground (
    arith,
    any_of-append (λ x. str_eq (Export.folder x) folder && (Export.day x == day))
        (export_day returns export_tasks current) (exports_of returns n (current + 1)),
    export_day-other returns export_tasks folder day current,
    exports_of-late n (current + 1) folder day,
  )

  exports_of_lem :
      (n start : ℕ) (folder : String) (day : ℕ)
      → has_export returns folder day (exports_of returns n start) ≡ (
          in_range start n day
          && any_of
              (λ t. str_eq (ExportTask.folder t) folder && returns (ExportTask.folder t) day)
              export_tasks)
  exports_of_lem n start folder day = elim (Bool-cases (leb start day)) [
    | inr e ↦ rw e (exports_of-other returns n start folder day (ground (arith, e)))
    | inl e ↦ elim (Bool-cases (ltb day (start + n))) [
      | inr h ↦ rw (e, h) (exports_of-late n start folder day (ground (arith, h)))
      | inl h ↦
          rw (e, h)
            (exports_of-day returns n start folder day (ground (arith, e)) (ground (arith, h))
              ∙ export_day-same returns export_tasks folder day)
    ]
  ]

  -- With fuel for the n days of its range, of which there is one at least, the backfill ends. It then has
  -- stored a folder of a day just when the day is in the range and the export of that folder and day
  -- returned, whatever became of the others.
  pub run_backfill_lem :
      (fuel start n : ℕ) (folder : String) (day : ℕ)
      → n < fuel
      → 0 < n
      → (l : List Export) × (run_backfill returns fuel start (start + n - 1) ≡ some l)
        × (has_export returns folder day l ≡ (
            in_range start n day
            && any_of
                (λ t. str_eq (ExportTask.folder t) folder && returns (ExportTask.folder t) day)
                export_tasks))
  unfolding run_backfill
  run_backfill_lem fuel start n folder day f p = (
    exports_of returns n start,
    backfill_from_lem returns n fuel start (start + n - 1) [] f (omega arith),
    exports_of_lem n start folder day,
  )
