-- ===== src/Backend/WhaleList.antt =====
-- `get_recent_whales` of backend/services/whale_service.py, over the query of
-- backend/repositories/whale_repo.py on the rows of `transactions` with their labels. `newest_first` is
-- PostgreSQL's order by time, and a float quotient is kept as its two parts.
use eth_project.Prelude.{
  ℕ, zero, suc, ◌*◌, ◌^◌, ◌≤◌, ◌≡◌, refl, Option, none, some, List, [], ◌∷◌, String, ℤ, pos, leb_ℤ,
  length, select, arith,
}
use eth_project.Runtime.{DateTime}

-- A row of the query; `value` is not null in the table.
pub record WhaleRow : Type 0 where
  pub hash : String
  pub timestamp : DateTime
  pub from_address : Option String
  pub to_address : Option String
  pub value : ℤ
  pub from_label : Option String
  pub to_label : Option String
  pub from_category : Option String
  pub to_category : Option String

pub record WhaleTransaction : Type 0 where
  pub hash : String
  pub timestamp : DateTime
  pub from_address : String
  pub to_address : String
  pub value_eth : ℤ × ℕ
  pub from_label : Option String
  pub to_label : Option String
  pub from_category : Option String
  pub to_category : Option String

abbrev pub service_threshold_wei : ℤ
service_threshold_wei = pos (100 * 10 ^ 18)

unfoldable pub take_rows {ℓ} : {A : Type ℓ} → ℕ → List A → List A
take_rows n [] = []
take_rows n (x ∷ xs) = elim n [ zero ↦ [] | suc m ↦ x ∷ take_rows m xs ]

-- The query: `WHERE t.value >= $1 ORDER BY t.timestamp DESC LIMIT $2`.
unfoldable pub recent_whales_query :
    (List WhaleRow → List WhaleRow) → ℤ → ℕ → List WhaleRow → List WhaleRow
recent_whales_query newest_first threshold limit rows =
    take_rows limit (newest_first (select (λ r. leb_ℤ threshold (WhaleRow.value r)) rows))

-- The response model of one row: both addresses are required texts.
unfoldable pub whale_transaction : WhaleRow → Option WhaleTransaction
whale_transaction r = elim r.from_address [
  | none ↦ none
  | some from ↦ elim r.to_address [
    | none ↦ none
    | some to ↦ some (record {
      hash = r.hash;
      timestamp = r.timestamp;
      from_address = from;
      to_address = to;
      value_eth = (r.value, 10 ^ 18);
      from_label = r.from_label;
      to_label = r.to_label;
      from_category = r.from_category;
      to_category = r.to_category;
    })
  ]
]

unfoldable pub whale_transactions : List WhaleRow → Option (List WhaleTransaction)
whale_transactions [] = some []
whale_transactions (r ∷ rows) =
    let rest = whale_transactions rows in
    elim (whale_transaction r) [
      | none ↦ none
      | some w ↦ elim rest [ none ↦ none | some ws ↦ some (w ∷ ws) ]
    ]

-- The response, or `none` for DatabaseFetchError; the table is `none` where the query raises.
unfoldable pub get_recent_whales :
    (List WhaleRow → List WhaleRow) → Option (List WhaleRow) → ℕ → Option (List WhaleTransaction)
get_recent_whales newest_first none limit = none
get_recent_whales newest_first (some rows) limit =
    whale_transactions (recent_whales_query newest_first service_threshold_wei limit rows)

length-take_rows {ℓ} : {A : Type ℓ} (n : ℕ) (xs : List A) → length (take_rows n xs) ≤ n
unfolding take_rows
length-take_rows n [] = omega arith
length-take_rows zero (x ∷ xs) = omega arith
length-take_rows (suc n) (x ∷ xs) = omega (arith, length-take_rows n xs)

-- The list grows by one for each row that has its addresses.
cons_length :
    (rows : List WhaleRow) (one : Option WhaleTransaction) (rest : Option (List WhaleTransaction))
    (ws : List WhaleTransaction)
    → ((vs : List WhaleTransaction) → rest ≡ some vs → length vs ≡ length rows)
    → (elim one [ none ↦ none | some w ↦ elim rest [ none ↦ none | some vs ↦ some (w ∷ vs) ] ])
      ≡ some ws
    → length ws ≡ suc (length rows)
cons_length rows none rest ws ih h = absurd (ground (arith, h))
cons_length rows (some w) none ws ih h = absurd (ground (arith, h))
cons_length rows (some w) (some vs) ws ih h = ground (arith, h, ih vs refl)

-- As many transactions are returned as rows.
length-whale_transactions :
    (rows : List WhaleRow) (ws : List WhaleTransaction)
    → whale_transactions rows ≡ some ws
    → length ws ≡ length rows
unfolding whale_transactions
length-whale_transactions [] ws h = ground (arith, h)
length-whale_transactions (r ∷ rows) ws h =
    cons_length rows (whale_transaction r) (whale_transactions rows) ws
      (λ vs e. length-whale_transactions rows vs e) h

-- A response holds at most `limit` transactions.
pub length-get_recent_whales :
    (newest_first : List WhaleRow → List WhaleRow) (rows : List WhaleRow) (limit : ℕ)
    (ws : List WhaleTransaction)
    → get_recent_whales newest_first (some rows) limit ≡ some ws
    → length ws ≤ limit
unfolding get_recent_whales recent_whales_query
length-get_recent_whales newest_first rows limit ws h =
    let passed = newest_first (select (λ r. leb_ℤ service_threshold_wei (WhaleRow.value r)) rows) in
    omega (
      arith,
      length-whale_transactions (take_rows limit passed) ws h,
      length-take_rows limit passed,
    )
