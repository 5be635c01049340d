-- ===== src/Consumer/Table/Laws.antt =====
-- What an insertion that skips conflicts does to a table: it loses no row, it stores every key that
-- it is given, and to run it again changes nothing.
use mathlib.Core.List.{append-nil, append_assoc}
use eth_project.Prelude.{
  ◌≡◌, refl, sym, ◌∙◌, ap, Bool, true, inl, inr, List, [], ◌∷◌, ◌++◌, arith, any_of, any_of-append,
  All, Bool-cases,
}
use eth_project.Consumer.Table.{insert_row, insert_rows}

module _ {ℓ} {A : Type ℓ} (same : A → A → Bool) where
  -- A row with the key of `x` is in the table.
  abbrev pub Stored : List A → A → Type 0
  Stored t x = any_of (same x) t ≡ true

  pub Stored-append : (t u : List A) (x : A) → Stored t x → Stored (t ++ u) x
  Stored-append t u x h = rw any_of-append (ground (arith, h))

  pub insert_row-prefix : (x : A) (t : List A) → (u : List A) × (insert_row same x t ≡ t ++ u)
  unfolding insert_row
  insert_row-prefix x t = elim (Bool-cases (any_of (same x) t)) [
    | inl old ↦ ([], rw old (sym (append-nil t)))
    | inr new ↦ (x ∷ [], rw new)
  ]

  pub insert_rows-prefix : (xs t : List A) → (u : List A) × (insert_rows same xs t ≡ t ++ u)
  unfolding insert_rows
  insert_rows-prefix [] t = ([], sym (append-nil t))
  insert_rows-prefix (x ∷ xs) t =
      let (u, p) = insert_row-prefix x t in
      let (v, q) = insert_rows-prefix xs (insert_row same x t) in
      (u ++ v, q ∙ ap (λ l. l ++ v) p ∙ append_assoc t u v)

  pub Stored-insert_rows : (xs t : List A) (x : A) → Stored t x → Stored (insert_rows same xs t) x
  Stored-insert_rows xs t x h = let (u, p) = insert_rows-prefix xs t in rw p (Stored-append t u x h)

  module _ (same_refl : (x : A) → same x x ≡ true) where
    Stored-insert_row_self : (x : A) (t : List A) → Stored (insert_row same x t) x
    unfolding insert_row
    Stored-insert_row_self x t = elim (Bool-cases (any_of (same x) t)) [
      | inl old ↦ rw old old
      | inr new ↦ rw (new, any_of-append) (ground (arith, same_refl x))
    ]

    -- Every row that was given is stored by its key.
    pub All-Stored-insert_rows : (xs t : List A) → All (Stored (insert_rows same xs t)) xs
    unfolding insert_rows
    All-Stored-insert_rows [] t = tt
    All-Stored-insert_rows (x ∷ xs) t = (
      Stored-insert_rows xs (insert_row same x t) x (Stored-insert_row_self x t),
      All-Stored-insert_rows xs (insert_row same x t),
    )

    -- Rows whose keys are stored change nothing.
    pub insert_rows-Stored : (xs t : List A) → All (Stored t) xs → insert_rows same xs t ≡ t
    unfolding insert_rows insert_row
    insert_rows-Stored [] t h = refl
    insert_rows-Stored (x ∷ xs) t h = rw h.0 (insert_rows-Stored xs t h.1)

    pub insert_rows_idem :
        (xs t : List A) → insert_rows same xs (insert_rows same xs t) ≡ insert_rows same xs t
    insert_rows_idem xs t =
        insert_rows-Stored xs (insert_rows same xs t) (All-Stored-insert_rows xs t)
