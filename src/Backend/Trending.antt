-- ===== src/Backend/Trending.antt =====
-- `get_trending_tokens` of backend/repositories/token_repo.py, with PostgreSQL's order by the count as
-- the argument `by_count`, and `search_tokens` of backend/api/tokens.py over the hits of Elasticsearch.
pub mod Totals
use eth_project.Prelude.{
  ℕ, ◌+◌, ◌-◌, ◌*◌, ◌≤◌, ◌≡◌, refl, sym, ap, ◌∙◌, ◌↔◌, String, str_eq, str_eq_iff, Bool, true,
  false, ◌&&◌, Option, none, some, List, [], ◌∷◌, ◌++◌, map, length, select, leb, arith,
  if◌then◌else◌, zero, suc,
}
use eth_project.Frame.{sum_by, distinct_by, IsReordering}
use eth_project.Frame.Parts.{IsGrouping, part_sums_total}
use eth_project.Frame.Orders.{length_sum, sum_by-map, sum_by_reordered}
use eth_project.Backend.Tokens.{TokenInfo, TransferRow}
use eth_project.Backend.WhaleList.{take_rows}

pub record TrendingToken : Type 0 where
  pub address : String
  pub symbol : Option String
  pub name : Option String
  pub transfer_count : ℕ

abbrev pub TokenTransfer : Type 0
TokenTransfer = TransferRow × TokenInfo

-- The transfers of the last hours.
unfoldable pub transfers_since : ℕ → ℕ → List TransferRow → List TransferRow
transfers_since now hours rows =
    select (λ r. leb (now - hours * 3600) (TransferRow.timestamp r)) rows

-- The rows of `tokens` for one transfer.
unfoldable pub tokens_of : TransferRow → List TokenInfo → List TokenTransfer
tokens_of r tokens =
    map (λ t. (r, t)) (select (λ t. str_eq r.token_address (TokenInfo.address t)) tokens)

unfoldable pub join_tokens : List TransferRow → List TokenInfo → List TokenTransfer
join_tokens [] tokens = []
join_tokens (r ∷ rows) tokens = tokens_of r tokens ++ join_tokens rows tokens

-- Null is one group.
unfoldable pub same_text : Option String → Option String → Bool
same_text none none = true
same_text none (some b) = false
same_text (some a) none = false
same_text (some a) (some b) = str_eq a b

unfoldable pub same_token_group : TokenTransfer → TokenTransfer → Bool
same_token_group (r, t) (s, u) =
    str_eq t.address u.address && (same_text t.symbol u.symbol && same_text t.name u.name)

unfoldable pub trending_token : List TokenTransfer → TokenTransfer → TrendingToken
trending_token rows (r, t) = record {
  address = t.address;
  symbol = t.symbol;
  name = t.name;
  transfer_count = length (select (same_token_group (r, t)) rows);
}

unfoldable pub trending_groups : List TokenTransfer → List TrendingToken
trending_groups rows = map (trending_token rows) (distinct_by same_token_group rows)

unfoldable pub trending_query :
    (List TrendingToken → List TrendingToken)
    → ℕ
    → ℕ
    → ℕ
    → List TransferRow
    → List TokenInfo
    → List TrendingToken
trending_query by_count now hours limit rows tokens =
    take_rows limit
      (by_count (trending_groups (join_tokens (transfers_since now hours rows) tokens)))

-- The source of a hit, each field with what `get` answers.
pub record Hit : Type 0 where
  pub address : Option String
  pub symbol : Option String
  pub name : Option String
  pub decimals : Option ℕ

-- The address is required, so one hit without it makes the whole search fail.
unfoldable pub search_results : List Hit → Option (List TokenInfo)
search_results [] = some []
search_results (h ∷ hits) = elim h.address [
  | none ↦ none
  | some a ↦ elim (search_results hits) [
    | none ↦ none
    | some rest ↦
        some
          (record { address = a; symbol = h.symbol; name = h.name; decimals = h.decimals } ∷ rest)
  ]
]

-- The answer of Elasticsearch, if it answers, cut to ten hits by its size.
unfoldable pub search_tokens : Option (List Hit) → Option (List TokenInfo)
search_tokens none = none
search_tokens (some hits) = search_results (take_rows 10 hits)
