-- ===== src/Address/TopTokens.antt =====
-- `main` of address/top1000_erc20_tokens.py: the tokens that are always wanted, then the tokens of at
-- most twenty pages by market value. The answers to the requests are arguments, `upper` and `clean`
-- are str.upper and str.lower with str.strip, and the order of the sorted frame is pandas's.
pub mod Rows
pub mod Unique
use eth_project.Prelude.{
  ℕ, zero, suc, ◌+◌, ◌-◌, ◌≡◌, String, str_eq, Bool, true, false, ◌&&◌, not, Option, none, some,
  List, [], ◌∷◌, ◌++◌, any_of, ltb, leb, ◌==◌, if◌then◌else◌, length, non_empty,
}
use eth_project.Address.Retry.{Answer, Fetched, fetched, gave_up, fetch_with_retry}

-- An entry of the list of coins, with its address on Ethereum.
pub record Platform : Type 0 where
  pub id : String
  pub ethereum : Option String

-- An entry of a market page; `market_cap` is the whole part of the number.
pub record Coin : Type 0 where
  pub id : String
  pub name : String
  pub symbol : String
  pub market_cap_rank : Option ℕ
  pub market_cap : Option ℕ

pub record Row : Type 0 where
  pub rank : ℕ
  pub market_rank : Option ℕ
  pub name : String
  pub symbol : String
  pub address : String
  pub decimals : ℕ
  pub market_cap_usd : ℕ

pub record Found : Type 0 where
  pub rows : List Row
  pub seen_addresses : List String
  pub rank_counter : ℕ

-- What the requests are answered: the list of coins, the wanted tokens, and each page.
pub record Requests : Type 0 where
  pub platforms : ℕ → Answer Platform
  pub mandatory : ℕ → Answer Coin
  pub page : ℕ → ℕ → Answer Coin

abbrev pub target_count : ℕ
target_count = 1000

abbrev pub max_pages : ℕ
max_pages = 20

-- The dictionary keeps the last entry of an id.
unfoldable pub platform_of : List Platform → String → Option (Option String)
platform_of [] id = none
platform_of (p ∷ ps) id = elim (platform_of ps id) [
  | some e ↦ some e
  | none ↦ if str_eq p.id id then some p.ethereum else none
]

abbrev pub flatten : Option (Option String) → Option String
flatten none = none
flatten (some e) = e

unfoldable pub cap_or_zero : Option ℕ → ℕ
cap_or_zero none = 0
cap_or_zero (some cap) = cap

-- `df["rank"] = df.index + 1`.
unfoldable pub renumber : ℕ → List Row → List Row
renumber n [] = []
renumber n (r ∷ rows) = record r { rank = n + 1 } ∷ renumber (n + 1) rows

abbrev pub nothing_found : Found
nothing_found = record { rows = []; seen_addresses = []; rank_counter = 0 }

-- The counter starts at the number of the wanted tokens.
unfoldable pub count_rows : Found → Found
count_rows s = record s { rank_counter = length s.rows }

module _ (upper clean : String → String) (starts_with_0x : String → Bool) where
  unfoldable pub usable : Option String → Option String
  usable none = none
  usable (some a) = if not (str_eq a "") && starts_with_0x a then some (clean a) else none

  -- The address of a coin, in lower case.
  unfoldable pub address_of : List Platform → Coin → Option String
  address_of platforms c = usable (flatten (platform_of platforms c.id))

  unfoldable pub token_row : ℕ → String → Coin → Row
  token_row rank address c = record {
    rank = rank;
    market_rank = c.market_cap_rank;
    name = c.name;
    symbol = upper c.symbol;
    address = address;
    decimals = 18;
    market_cap_usd = cap_or_zero c.market_cap;
  }

  unfoldable pub add_mandatory : Option String → Coin → Found → Found
  add_mandatory none c s = s
  add_mandatory (some a) c s = record s {
    rows = s.rows ++ (token_row 0 a c ∷ []);
    seen_addresses = a ∷ s.seen_addresses;
  }

  unfoldable pub mandatory_tokens : List Platform → List Coin → Found → Found
  mandatory_tokens platforms [] s = s
  mandatory_tokens platforms (c ∷ cs) s =
      mandatory_tokens platforms cs (add_mandatory (address_of platforms c) c s)

  unfoldable pub add_unseen : String → Coin → Found → Found
  add_unseen a c s = if any_of (str_eq a) s.seen_addresses then s else record {
    rows = s.rows ++ (token_row (s.rank_counter + 1) a c ∷ []);
    seen_addresses = a ∷ s.seen_addresses;
    rank_counter = s.rank_counter + 1;
  }

  unfoldable pub add_ranked : Option String → Coin → Found → Found
  add_ranked none c s = s
  add_ranked (some a) c s = add_unseen a c s

  -- The coins of one page, up to the target.
  unfoldable pub ranked_tokens : List Platform → List Coin → Found → Found
  ranked_tokens platforms [] s = s
  ranked_tokens platforms (c ∷ cs) s =
      let rest = ranked_tokens platforms cs (add_ranked (address_of platforms c) c s) in
      if leb target_count (length s.rows) then s else rest

  -- What follows the request of a page: a failed one ends the loop with what was found.
  unfoldable pub with_page : List Platform → (Found → Found) → Fetched Coin → Found → Found
  with_page platforms next (gave_up w) s = s
  with_page platforms next (fetched [] w) s = s
  with_page platforms next (fetched (c ∷ cs) w) s = next (ranked_tokens platforms (c ∷ cs) s)

  -- The `while` loop with `left` pages to go.
  unfoldable pub pages : Requests → List Platform → (left : ℕ) → Found → Found
  pages env platforms zero s = s
  pages env platforms (suc left) s =
      if ltb (length s.rows) target_count
      then with_page platforms (pages env platforms left)
          (fetch_with_retry (env.page (max_pages - left))) s
      else s

  unfoldable pub after_mandatory : Requests → List Platform → Fetched Coin → Found
  after_mandatory env platforms (gave_up w) = nothing_found
  after_mandatory env platforms (fetched cs w) =
      pages env platforms max_pages (count_rows (mandatory_tokens platforms cs nothing_found))

  unfoldable pub collect : Requests → Fetched Platform → Found
  collect env (gave_up w) = nothing_found
  collect env (fetched [] w) = nothing_found
  collect env (fetched (p ∷ ps) w) = after_mandatory env (p ∷ ps) (fetch_with_retry env.mandatory)

  -- The table that is written, if any token was found.
  unfoldable pub tokens_main : (List Row → List Row) → Requests → Option (List Row)
  tokens_main sort_values env =
      let found = collect env (fetch_with_retry env.platforms) in
      if non_empty found.rows then some (renumber 0 (sort_values found.rows)) else none
