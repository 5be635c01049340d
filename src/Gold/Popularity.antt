-- ===== src/Gold/Popularity.antt =====
-- `build_token_popularity_daily` of gold/transform/token_popularity_daily.py, on the rows of
-- token_flow of one date. The float arithmetic on amounts and the approximate count of Spark are
-- parameters; the doubles between two counts and the score are exact quotients here.
pub mod Parts
pub mod Score
use eth_project.Prelude.{
  ℕ, ◌+◌, ◌-◌, ◌*◌, ◌/◌, ◌≡◌, String, str_eq, Bool, true, false, ◌&&◌, Option, none, some, List, [],
  ◌∷◌, map, leb, ltb, ◌==◌, if◌then◌else◌, length, select,
}
use eth_project.Frame.{Address, distinct_by}
use eth_project.Silver.TokenFlow.{TokenFlow}

-- What Spark computes with amounts. `volume_above_min` and `volume_denom` are the two sides of the quotient
-- of `_min_max_norm` among the volumes of a day, in units in which they are whole; the first is `none` where
-- the volume is null. `approx_count_distinct` is that of the texts
-- that `concat_ws` makes of two addresses.
pub record Floats (Float : Type 0) : Type 0 where
  pub zero : Float
  pub negate : Float → Float
  pub rounded_sum : List Float → Float
  pub above_threshold : Float → Bool
  pub below_threshold : Float → Bool
  pub volume_above_min : List Float → Float → Option ℕ
  pub volume_denom : List Float → ℕ
  pub approx_count_distinct : List (Address × Address) → ℕ

-- A row of the groups.
pub record Base (Float : Type 0) : Type 0 where
  pub token_address : String
  pub symbol : String
  pub token_name : String
  pub tx_count : ℕ
  pub total_volume : Float
  pub unique_addresses : ℕ
  pub cex_net_flow : Float

pub data PopularityTier : Type 0 where
  top1 top3 top10 hot normal : PopularityTier

pub data CexFlow : Type 0 where
  cex_inflow cex_outflow neutral : CexFlow

unfoldable pub popularity_tier : ℕ → PopularityTier
popularity_tier rank =
    if rank == 1
    then top1
    else if leb rank 3
    then top3
    else if leb rank 10
    then top10
    else if leb rank 50
    then hot
    else normal

-- The nearest number to the quotient n / d, a half upwards.
abbrev pub round_quotient : ℕ → ℕ → ℕ
round_quotient n d = (2 * n + d) / (2 * d)

-- The weights, in units of 10 ^ -4.
abbrev pub weight_tx_count : ℕ
weight_tx_count = 5500

abbrev pub weight_unique_addresses : ℕ
weight_unique_addresses = 4500

abbrev pub weight_total_volume : ℕ
weight_total_volume = 0

module _ {Float : Type 0} where
  unfoldable pub same_token : TokenFlow Float → TokenFlow Float → Bool
  same_token r s =
      str_eq r.token_address s.token_address
      && (str_eq r.symbol s.symbol && str_eq r.token_name s.token_name)

  abbrev pub min_of : (Base Float → ℕ) → List (Base Float) → ℕ
  min_of f [] = 0
  min_of f (b ∷ []) = f b
  min_of f (b ∷ c ∷ bs) = let rest = min_of f (c ∷ bs) in if ltb (f b) rest then f b else rest

  abbrev pub max_of : (Base Float → ℕ) → List (Base Float) → ℕ
  max_of f [] = 0
  max_of f (b ∷ bs) = let rest = max_of f bs in if leb (f b) rest then rest else f b

  -- The divisor of `_min_max_norm`.
  unfoldable pub denom : (Base Float → ℕ) → List (Base Float) → ℕ
  denom f all = if max_of f all - min_of f all == 0 then 1 else max_of f all - min_of f all

  unfoldable pub above_min : (Base Float → ℕ) → List (Base Float) → Base Float → ℕ
  above_min f all b = f b - min_of f all

  -- In units of 10 ^ -4, from the normed transactions, addresses and volume.
  unfoldable pub weighted_score : List (Base Float) → Base Float → (volume range : ℕ) → ℕ
  weighted_score all b volume range =
      let d = denom Base.tx_count all in
      let e = denom Base.unique_addresses all in
      round_quotient
        (weight_tx_count * (above_min Base.tx_count all b * (e * range))
          + weight_unique_addresses * (above_min Base.unique_addresses all b * (d * range))
          + weight_total_volume * (volume * (d * e)))
        (d * (e * range))

-- The descending order of scores: null is the last.
unfoldable pub ranks_above : Option ℕ → Option ℕ → Bool
ranks_above none s = false
ranks_above (some x) none = true
ranks_above (some x) (some y) = ltb y x

module _ {Float : Type 0} (floats : Floats Float) where
  -- The sum is null where the normed volume is.
  unfoldable pub popularity_score : List (Base Float) → Base Float → Option ℕ
  popularity_score all b =
      let volumes = map Base.total_volume all in
      elim (floats.volume_above_min volumes b.total_volume) [
        | none ↦ none
        | some volume ↦ some (weighted_score all b volume (floats.volume_denom volumes))
      ]

  -- `F.rank()` by the score, the largest first.
  unfoldable pub rank_popularity : List (Base Float) → Base Float → ℕ
  rank_popularity all b =
      1 + length (select (λ c. ranks_above (popularity_score all c) (popularity_score all b)) all)

pub record TokenPopularity (Float : Type 0) : Type 0 where
  pub token_address : String
  pub symbol : String
  pub token_name : String
  pub rank_popularity : ℕ
  pub popularity_tier : PopularityTier
  pub popularity_score : Option ℕ
  pub tx_count : ℕ
  pub total_volume : Float
  pub unique_addresses : ℕ
  pub cex_net_flow : Float
  pub cex_flow_label : CexFlow

module _ {Float : Type 0} (floats : Floats Float) where
  -- What a transfer adds to the net flow into exchanges.
  unfoldable pub cex_amount : TokenFlow Float → Float
  cex_amount r =
      if str_eq r.to_category "CEX"
      then r.amount
      else if str_eq r.from_category "CEX"
      then floats.negate r.amount
      else floats.zero

  unfoldable pub base_row : List (TokenFlow Float) → TokenFlow Float → Base Float
  base_row rows r =
      let group = select (same_token r) rows in
      record {
        token_address = r.token_address;
        symbol = r.symbol;
        token_name = r.token_name;
        tx_count = length group;
        total_volume = floats.rounded_sum (map TokenFlow.amount group);
        unique_addresses =
            floats.approx_count_distinct
              (map (λ s. (TokenFlow.from_address s, TokenFlow.to_address s)) group);
        cex_net_flow = floats.rounded_sum (map cex_amount group);
      }

  unfoldable pub base : List (TokenFlow Float) → List (Base Float)
  base rows = map (base_row rows) (distinct_by same_token rows)

  unfoldable pub cex_flow_label : Float → CexFlow
  cex_flow_label net =
      if floats.above_threshold net
      then cex_inflow
      else if floats.below_threshold net
      then cex_outflow
      else neutral

  unfoldable pub final_token : List (Base Float) → Base Float → TokenPopularity Float
  final_token all b = record {
    token_address = b.token_address;
    symbol = b.symbol;
    token_name = b.token_name;
    rank_popularity = rank_popularity floats all b;
    popularity_tier = popularity_tier (rank_popularity floats all b);
    popularity_score = popularity_score floats all b;
    tx_count = b.tx_count;
    total_volume = b.total_volume;
    unique_addresses = b.unique_addresses;
    cex_net_flow = b.cex_net_flow;
    cex_flow_label = cex_flow_label b.cex_net_flow;
  }

  unfoldable pub build_token_popularity_daily :
      List (TokenFlow Float) → List (TokenPopularity Float)
  build_token_popularity_daily rows = map (final_token (base rows)) (base rows)
