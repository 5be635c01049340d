-- ===== src/Tests/Tokens.antt =====
-- The theorem about the list of tokens, at a concrete input.
use mathlib.Core.List.Permᴰ
use eth_project.Prelude.{
  ◌≤◌, ◌≡◌, refl, true, none, some, List, [], ◌∷◌, arith, map, length, if◌then◌else◌, ◌==◌,
}
use eth_project.Frame.Joins.{IsUnique}
use eth_project.Address.Retry.{body, fetched, fetch_with_retry, attempts_from}
use eth_project.Address.TopTokens
use eth_project.Address.TopTokens.{Platform, Coin, Row, Requests, tokens_main}
use eth_project.Address.TopTokens.Rows.{numbers_from}
use eth_project.Address.TopTokens.Unique.{tokens_main_lem, wanted}

abbrev weth : Coin
weth = record {
  id = "weth";
  name = "WETH";
  symbol = "weth";
  market_cap_rank = none;
  market_cap = some 5;
}

abbrev tether : Coin
tether = record {
  id = "tether";
  name = "Tether";
  symbol = "usdt";
  market_cap_rank = some 3;
  market_cap = some 9;
}

abbrev weth_platform : Platform
weth_platform = record { id = "weth"; ethereum = some "0xw" }

abbrev tether_platform : Platform
tether_platform = record { id = "tether"; ethereum = some "0xt" }

-- The second page is empty.
abbrev requests : Requests
requests = record {
  platforms = λ n. body (weth_platform ∷ tether_platform ∷ []);
  mandatory = λ n. body (weth ∷ []);
  page = λ p n. if p == 1 then body (weth ∷ tether ∷ []) else body [];
}

abbrev token_table : List Row
token_table =
    record {
      rank = 1;
      market_rank = none;
      name = "WETH";
      symbol = "weth";
      address = "0xw";
      decimals = 18;
      market_cap_usd = 5;
    }
    ∷ record {
      rank = 2;
      market_rank = some 3;
      name = "Tether";
      symbol = "usdt";
      address = "0xt";
      decimals = 18;
      market_cap_usd = 9;
    }
    ∷ []

tokens_written :
    tokens_main (λ s. s) (λ s. s) (λ s. true) (λ rows. rows) requests ≡ some token_table
unfolding tokens_main TopTokens.collect fetch_with_retry TopTokens.after_mandatory TopTokens.pages
    TopTokens.count_rows TopTokens.mandatory_tokens TopTokens.add_mandatory TopTokens.address_of
    TopTokens.usable TopTokens.platform_of TopTokens.with_page TopTokens.ranked_tokens
    TopTokens.add_ranked TopTokens.add_unseen TopTokens.renumber TopTokens.token_row
    TopTokens.cap_or_zero attempts_from
tokens_written = refl

platforms_fetched :
    fetch_with_retry requests.platforms ≡ fetched (weth_platform ∷ tether_platform ∷ []) 0
unfolding fetch_with_retry attempts_from
platforms_fetched = refl

mandatory_fetched : fetch_with_retry requests.mandatory ≡ fetched (weth ∷ []) 0
unfolding fetch_with_retry attempts_from
mandatory_fetched = refl

abbrev wanted_rows : List Row
wanted_rows =
    wanted (λ s. s) (λ s. s) (λ s. true) (weth_platform ∷ tether_platform ∷ []) (weth ∷ [])

wanted_unique : IsUnique Row.address wanted_rows
unfolding TopTokens.mandatory_tokens TopTokens.add_mandatory TopTokens.address_of TopTokens.usable
    TopTokens.platform_of
wanted_unique = (refl, tt)

wanted_few : length wanted_rows ≤ 1000
unfolding TopTokens.mandatory_tokens TopTokens.add_mandatory TopTokens.address_of TopTokens.usable
    TopTokens.platform_of
wanted_few = omega arith

tokens_main_lem_example :
    IsUnique Row.address token_table
    × (length token_table ≤ 1000)
    × (map Row.rank token_table ≡ numbers_from 0 token_table)
tokens_main_lem_example =
    tokens_main_lem (λ s. s) (λ s. s) (λ s. true) (λ rows. rows) requests weth_platform
      (tether_platform ∷ []) (weth ∷ []) 0 0 token_table Permᴰ.refl platforms_fetched
      mandatory_fetched wanted_unique wanted_few tokens_written
