-- ===== src/Backend/Tokens.antt =====
-- `get_all_tokens` and `get_token_trends` of backend/services/token_service.py and
-- backend/repositories/token_repo.py. `by_symbol` is PostgreSQL's order by symbol, with nulls last,
-- `ilike` its test of a prefix, and `bucket_of` is TimescaleDB's time_bucket.
use eth_project.Prelude.{
  ℕ, zero, suc, ◌+◌, ◌-◌, ◌*◌, ◌≡◌, refl, ap, ◌∙◌, Bool, true, ◌&&◌, Option, none, some, List, [],
  ◌∷◌, ◌++◌, map, String, str_eq, length, select, leb, ◌==◌, arith, if◌then◌else◌,
}
use eth_project.Frame.{sum_by, distinct_by}
use eth_project.Backend.WhaleList.{take_rows}

-- A row of `tokens`, and with its fields the response.
pub record TokenInfo : Type 0 where
  pub address : String
  pub symbol : Option String
  pub name : Option String
  pub decimals : Option ℕ

unfoldable pub drop_rows {ℓ} : {A : Type ℓ} → ℕ → List A → List A
drop_rows n [] = []
drop_rows n (x ∷ xs) = elim n [ zero ↦ x ∷ xs | suc m ↦ drop_rows m xs ]

-- An empty prefix is no prefix.
unfoldable pub prefix_test : (String → Option String → Bool) → Option String → TokenInfo → Bool
prefix_test ilike none t = true
prefix_test ilike (some p) t = if str_eq p "" then true else ilike p t.symbol

module _ (by_symbol : List TokenInfo → List TokenInfo) (ilike : String → Option String → Bool) where
  unfoldable pub all_tokens_query : ℕ → ℕ → Option String → List TokenInfo → List TokenInfo
  all_tokens_query limit offset prefix tokens =
      take_rows limit (drop_rows offset (by_symbol (select (prefix_test ilike prefix) tokens)))

  -- The response, or `none` for DatabaseFetchError; the table is `none` where the query raises.
  unfoldable pub get_all_tokens :
      ℕ → ℕ → Option String → Option (List TokenInfo) → Option (List TokenInfo)
  get_all_tokens limit offset prefix none = none
  get_all_tokens limit offset prefix (some tokens) =
      some (all_tokens_query limit offset prefix tokens)

-- A row of `token_transfers`; a null value counts nothing in the sum.
pub record TransferRow : Type 0 where
  pub token_address : String
  pub timestamp : ℕ
  pub value : Option ℕ

pub record TokenTrendPoint : Type 0 where
  pub time_bucket : ℕ
  pub transfer_count : ℕ
  pub total_value : ℕ

abbrev pub value_or_zero : TransferRow → ℕ
value_or_zero r = elim r.value [ none ↦ 0 | some v ↦ v ]

module _ (bucket_of : ℕ → ℕ) (ascending : List TokenTrendPoint → List TokenTrendPoint) where
  abbrev pub same_bucket : TransferRow → TransferRow → Bool
  same_bucket r s = bucket_of r.timestamp == bucket_of s.timestamp

  unfoldable pub trend_point : List TransferRow → TransferRow → TokenTrendPoint
  trend_point rows r =
      let mine = select (same_bucket r) rows in
      record {
        time_bucket = bucket_of r.timestamp;
        transfer_count = length mine;
        total_value = sum_by value_or_zero mine;
      }

  -- The rows of the token since `limit` buckets before now.
  unfoldable pub recent_transfers : ℕ → ℕ → ℕ → String → List TransferRow → List TransferRow
  recent_transfers now width limit address rows =
      select
        (λ r.
          str_eq (TransferRow.token_address r) address
          && leb (now - width * limit) (TransferRow.timestamp r))
        rows

  unfoldable pub get_token_trends :
      ℕ → ℕ → ℕ → String → Option (List TransferRow) → Option (List TokenTrendPoint)
  get_token_trends now width limit address none = none
  get_token_trends now width limit address (some rows) =
      let recent = recent_transfers now width limit address rows in
      some (ascending (map (trend_point recent) (distinct_by same_bucket recent)))

module _ {ℓ} {A : Type ℓ} where
  none_dropped : (xs : List A) → drop_rows 0 xs ≡ xs
  unfolding drop_rows
  none_dropped [] = refl
  none_dropped (x ∷ xs) = refl

  take_rows-drop_rows :
      (n m : ℕ) (xs : List A)
      → take_rows n xs ++ take_rows m (drop_rows n xs) ≡ take_rows (n + m) xs
  unfolding take_rows drop_rows
  take_rows-drop_rows n m [] = refl
  take_rows-drop_rows zero m (x ∷ xs) =
      (let e : m ≡ 0 + m = omega arith in ap (λ k. take_rows k (x ∷ xs)) e)
  take_rows-drop_rows (suc n) m (x ∷ xs) =
      ap (λ l. x ∷ l) (take_rows-drop_rows n m xs)
      ∙ (let e : suc (n + m) ≡ suc n + m = omega arith in ap (λ k. take_rows k (x ∷ xs)) e)

-- Where the table does not change, two pages that follow each other are one longer page.
pub all_tokens_query-append :
    (by_symbol : List TokenInfo → List TokenInfo) (ilike : String → Option String → Bool) (n m : ℕ)
    (prefix : Option String) (tokens : List TokenInfo)
    → all_tokens_query by_symbol ilike n 0 prefix tokens
        ++ all_tokens_query by_symbol ilike m n prefix tokens
      ≡ all_tokens_query by_symbol ilike (n + m) 0 prefix tokens
unfolding all_tokens_query
all_tokens_query-append by_symbol ilike n m prefix tokens =
    let sorted = by_symbol (select (prefix_test ilike prefix) tokens) in
    rw (none_dropped sorted) (take_rows-drop_rows n m sorted)
