-- ===== src/Backend/Loading.antt =====
-- The loaders of backend/core/db.py: rows of a CSV file into PostgreSQL and Elasticsearch. A table
-- is the list of its rows, and an index the list of its documents; `lower` is str.lower, and
-- `read_number` is `int` of a text of digits, `none` where `isdigit` is false.
pub mod Upserts
use eth_project.Prelude.{
  ℕ, zero, suc, ◌≡◌, String, str_eq, Bool, true, false, Option, none, some, List, [], ◌∷◌, ◌++◌,
  map, any_of, if◌then◌else◌,
}
use eth_project.Action.{Action, Result, Exception, ok, raised, database_error, os_error}

module _ {A : Type 0} (key : A → String) where
  -- `INSERT … ON CONFLICT (address) DO UPDATE` of one row.
  unfoldable pub upsert : A → List A → List A
  upsert x [] = x ∷ []
  upsert x (y ∷ ys) = let rest = upsert x ys in if str_eq (key x) (key y) then x ∷ ys else y ∷ rest

  unfoldable pub upsert_all : List A → List A → List A
  upsert_all [] t = t
  upsert_all (x ∷ xs) t = upsert_all xs (upsert x t)

  unfoldable pub row_of : String → List A → Option A
  row_of k [] = none
  row_of k (y ∷ ys) = let rest = row_of k ys in if str_eq k (key y) then some y else rest

  -- `conn.executemany`: one transaction, so a failure leaves the table as it was.
  unfoldable pub executemany : Bool → List A → Action (List A) (Unit {0})
  executemany true records t = (ok tt, upsert_all records t)
  executemany false records t = (raised database_error, t)

pub record CsvToken : Type 0 where
  pub address : String
  pub symbol : String
  pub name : String
  pub decimals : String

pub record Token : Type 0 where
  pub address : String
  pub symbol : String
  pub name : String
  pub decimals : ℕ

pub record CsvLabel : Type 0 where
  pub address : String
  pub name : String
  pub category : String

-- What the file system does with the path of a file: it is not there, it cannot be read, or its rows.
pub data File (A : Type 0) : Type 0 where
  absent unreadable : File A
  rows : List A → File A

module _ (lower : String → String) (read_number : String → Option ℕ) where
  unfoldable pub decimals_of : String → ℕ
  decimals_of text = elim (read_number text) [ none ↦ 18 | some n ↦ n ]

  unfoldable pub token_record : CsvToken → Token
  token_record r = record {
    address = lower r.address;
    symbol = r.symbol;
    name = r.name;
    decimals = decimals_of r.decimals;
  }

  unfoldable pub label_record : CsvLabel → CsvLabel
  label_record r = record { address = lower r.address; name = r.name; category = r.category }

  unfoldable pub load_tokens_from_csv : Bool → File CsvToken → Action (List Token) (Unit {0})
  load_tokens_from_csv accepted absent t = (ok tt, t)
  load_tokens_from_csv accepted unreadable t = (raised os_error, t)
  load_tokens_from_csv accepted (rows rs) t =
      executemany Token.address accepted (map token_record rs) t

  unfoldable pub load_known_label_from_csv :
      Bool → File CsvLabel → Action (List CsvLabel) (Unit {0})
  load_known_label_from_csv accepted absent t = (ok tt, t)
  load_known_label_from_csv accepted unreadable t = (raised os_error, t)
  load_known_label_from_csv accepted (rows rs) t =
      executemany CsvLabel.address accepted (map label_record rs) t

  abbrev pub first_n {ℓ} : {A : Type ℓ} → ℕ → List A → List A
  first_n n [] = []
  first_n n (x ∷ xs) = elim n [ zero ↦ [] | suc m ↦ x ∷ first_n m xs ]

  -- `async_bulk` indexes documents by `_id`, all of them or, where it fails, some first ones; the failure is logged.
  unfoldable pub load_tokens_to_es : Option ℕ → File CsvToken → Action (List Token) (Unit {0})
  load_tokens_to_es stops absent t = (ok tt, t)
  load_tokens_to_es stops unreadable t = (raised os_error, t)
  load_tokens_to_es none (rows rs) t = (ok tt, upsert_all Token.address (map token_record rs) t)
  load_tokens_to_es (some n) (rows rs) t =
      (ok tt, upsert_all Token.address (first_n n (map token_record rs)) t)
