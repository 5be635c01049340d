-- ===== src/Backend/Loading/Upserts.antt =====
-- What a table holds for an address once a file is loaded.
use eth_project.Prelude.{
  ℕ, ◌≡◌, refl, ap, ◌∙◌, inl, inr, String, str_eq, str_eq_iff, Bool, true, Option, none, some, List,
  [], ◌∷◌, map, if◌then◌else◌, arith, Bool-cases,
}
use eth_project.Backend.Loading.{
  upsert, upsert_all, row_of, executemany, CsvToken, Token, CsvLabel, rows, token_record,
  label_record, decimals_of, load_tokens_from_csv, load_tokens_to_es, load_known_label_from_csv,
}

module _ {A : Type 0} (key : A → String) where
  -- The last of the loaded rows with a key, or else what the table held for it.
  abbrev pub last_or : String → List A → Option A → Option A
  last_or k [] o = o
  last_or k (x ∷ xs) o = last_or k xs (if str_eq k (key x) then some x else o)

  same_test :
      (k : String) (x y : A) (ys : List A)
      → key x ≡ key y
      → row_of key k (x ∷ ys) ≡ (
          if str_eq k (key x) then some x else if str_eq k (key y) then some y else row_of key k ys)
  unfolding row_of
  same_test k x y ys e = elim (Bool-cases (str_eq k (key x))) [
    | inl h ↦ rw h refl
    | inr h ↦ rw (h, rw e at h) refl
  ]

  row_of-upsert :
      (k : String) (x : A) (t : List A)
      → row_of key k (upsert key x t) ≡ (if str_eq k (key x) then some x else row_of key k t)
  unfolding upsert row_of
  row_of-upsert k x [] = refl
  row_of-upsert k x (y ∷ ys) = elim (Bool-cases (str_eq (key x) (key y))) [
    | inl e ↦ rw e (same_test k x y ys ((str_eq_iff (key x) (key y)).0 e))
    | inr e ↦
        rw (e, row_of, row_of-upsert k x ys)
          (ground
            (arith, e, str_eq_iff k (key x), str_eq_iff k (key y), str_eq_iff (key x) (key y)))
  ]

  pub row_of-upsert_all :
      (k : String) (xs t : List A)
      → row_of key k (upsert_all key xs t) ≡ last_or k xs (row_of key k t)
  unfolding upsert_all
  row_of-upsert_all k [] t = refl
  row_of-upsert_all k (x ∷ xs) t =
      row_of-upsert_all k xs (upsert key x t) ∙ ap (last_or k xs) (row_of-upsert k x t)

-- The last element that passes a test.
abbrev pub last_of : {R : Type 0} → (R → Bool) → List R → Option R
last_of p [] = none
last_of p (r ∷ rs) = elim (last_of p rs) [ none ↦ if p r then some r else none | some x ↦ some x ]

abbrev pub or_old : {R A : Type 0} → (R → A) → Option A → Option R → Option A
or_old g old none = old
or_old g old (some r) = some (g r)

module _ {R A : Type 0} (key : A → String) (f g : R → A) (k : String) (p : R → Bool)
    (same_test_of : (r : R) → str_eq k (key (f r)) ≡ p r)
    (same_row : (r : R) → p r ≡ true → f r ≡ g r) where
  or_old-step :
      (r : R) (o : Option A) (last : Option R)
      → or_old g (if p r then some (f r) else o) last
        ≡ or_old g o (elim last [ none ↦ if p r then some r else none | some x ↦ some x ])
  or_old-step r o (some x) = refl
  or_old-step r o none = elim (Bool-cases (p r)) [
    | inl e ↦ rw e (ap some (same_row r e))
    | inr e ↦ rw e refl
  ]

  last_or-map :
      (rs : List R) (o : Option A) → last_or key k (map f rs) o ≡ or_old g o (last_of p rs)
  last_or-map [] o = refl
  last_or-map (r ∷ rs) o =
      rw (last_or, same_test_of r)
        (last_or-map rs (if p r then some (f r) else o) ∙ or_old-step r o (last_of p rs))

-- The number of a text of digits, and 18 for any other text.
abbrev pub number_or_18 : Option ℕ → ℕ
number_or_18 none = 18
number_or_18 (some n) = n

abbrev pub stored_token : (String → Option ℕ) → String → CsvToken → Token
stored_token read_number k r = record {
  address = k;
  symbol = r.symbol;
  name = r.name;
  decimals = number_or_18 (read_number r.decimals);
}

abbrev pub stored_label : String → CsvLabel → CsvLabel
stored_label k r = record { address = k; name = r.name; category = r.category }

module _ (lower : String → String) (read_number : String → Option ℕ) where
  token_record_eq :
      (k : String) (r : CsvToken)
      → str_eq k (lower r.address) ≡ true
      → token_record lower read_number r ≡ stored_token read_number k r
  unfolding token_record decimals_of
  token_record_eq k r h = rw (← (str_eq_iff k (lower r.address)).0 h) refl

  label_record_eq :
      (k : String) (r : CsvLabel)
      → str_eq k (lower r.address) ≡ true
      → label_record lower read_number r ≡ stored_label k r
  unfolding label_record
  label_record_eq k r h = rw (← (str_eq_iff k (lower r.address)).0 h) refl

  tokens_loaded :
      (rs : List CsvToken) (t : List Token) (k : String)
      → row_of Token.address k
          (upsert_all Token.address (map (token_record lower read_number) rs) t)
        ≡ or_old
            (stored_token read_number k)
            (row_of Token.address k t)
            (last_of (λ r. str_eq k (lower (CsvToken.address r))) rs)
  unfolding token_record
  tokens_loaded rs t k =
      row_of-upsert_all Token.address k (map (token_record lower read_number) rs) t
      ∙ last_or-map Token.address (token_record lower read_number) (stored_token read_number k) k
          (λ r. str_eq k (lower (CsvToken.address r))) (λ r. refl) (token_record_eq k) rs
          (row_of Token.address k t)

  -- A load that is accepted, of tokens into the table or into the index, or of labels into theirs, leaves
  -- for an address what the last row of the file has whose address in lower case is that one, with 18
  -- decimals where the text is no number; and what was there if the file has none.
  pub load_tokens_lem :
      (rs : List CsvToken) (t : List Token) (labels : List CsvLabel) (u : List CsvLabel)
      (k : String)
      → (row_of Token.address k (load_tokens_from_csv lower read_number true (rows rs) t).1
          ≡ or_old
              (stored_token read_number k)
              (row_of Token.address k t)
              (last_of (λ r. str_eq k (lower (CsvToken.address r))) rs))
        × (row_of Token.address k (load_tokens_to_es lower read_number none (rows rs) t).1
            ≡ or_old
                (stored_token read_number k)
                (row_of Token.address k t)
                (last_of (λ r. str_eq k (lower (CsvToken.address r))) rs))
        × (row_of CsvLabel.address k
              (load_known_label_from_csv lower read_number true (rows labels) u).1
            ≡ or_old
                (stored_label k)
                (row_of CsvLabel.address k u)
                (last_of (λ r. str_eq k (lower (CsvLabel.address r))) labels))
  unfolding load_tokens_from_csv load_tokens_to_es load_known_label_from_csv executemany
      label_record
  load_tokens_lem rs t labels u k = (
    tokens_loaded rs t k,
    tokens_loaded rs t k,
    row_of-upsert_all CsvLabel.address k (map (label_record lower read_number) labels) u
        ∙ last_or-map CsvLabel.address (label_record lower read_number) (stored_label k) k
            (λ r. str_eq k (lower (CsvLabel.address r))) (λ r. refl) (label_record_eq k) labels
            (row_of CsvLabel.address k u),
  )
