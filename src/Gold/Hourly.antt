-- ===== src/Gold/Hourly.antt =====
-- `build_token_popularity_hourly` of gold/transform/token_popularity_hourly.py, on the rows of token_flow
-- of one date. The float arithmetic on amounts, and Spark's order of the rows of a token by the hour, are
-- parameters. The change of the count is exact, in hundredths of a percent.

pub mod Totals
use eth_project.Prelude.{
  ℕ, zero, suc, ◌+◌, ◌-◌, ◌*◌, ◌/◌, ◌==◌, String, str_eq, Bool, true, false, ◌&&◌, Option, none,
  some, List, [], ◌∷◌, ◌++◌, map, leb, ltb, if◌then◌else◌, length, select, ℤ, pos, leb_ℤ, sub_ℕ,
}
use eth_project.Frame.{distinct_by}
use eth_project.Silver.TokenFlow.{TokenFlow}
use eth_project.Silver.Checks.{resolves}
use eth_project.Gold.Popularity.{Floats, cex_amount, round_quotient}

-- A row of the groups; the hour is null where the block is unknown.
pub record HourlyBase (Float : Type 0) : Type 0 where
  pub hour : Option ℕ
  pub token_address : String
  pub symbol : String
  pub tx_count : ℕ
  pub total_volume : Float
  pub cex_net_flow : Float

pub record WithTrend (Float : Type 0) : Type 0 where
  pub group : HourlyBase Float
  pub tx_count_change_pct : Option ℤ

pub data TrendingSignal : Type 0 where
  surging rising cooling : TrendingSignal

pub record TokenPopularityHourly (Float : Type 0) : Type 0 where
  pub hour : Option ℕ
  pub token_address : String
  pub symbol : String
  pub rank_by_tx_count : ℕ
  pub tx_count : ℕ
  pub total_volume : Float
  pub tx_count_change_pct : Option ℤ
  pub cex_net_flow : Float
  pub trending_signal : Option TrendingSignal

-- Null is one group.
unfoldable pub hour_matches : Option ℕ → Option ℕ → Bool
hour_matches none none = true
hour_matches none (some b) = false
hour_matches (some a) none = false
hour_matches (some a) (some b) = a == b

-- The change from `prev` to `now`, rounded half away from zero; there is none without a count before.
unfoldable pub change_pct : Option ℕ → ℕ → Option ℤ
change_pct none now = none
change_pct (some prev) now =
    if ltb 0 prev
    then if leb prev now
      then some (pos (round_quotient ((now - prev) * 10000) prev))
      else some (sub_ℕ 0 (round_quotient ((prev - now) * 10000) prev))
    else none

-- A comparison with null is not true.
unfoldable pub trending_signal : Option ℤ → ℕ → Option TrendingSignal
trending_signal none rank = none
trending_signal (some pct) rank =
    if leb_ℤ (pos 10000) pct && leb rank 20
    then some surging
    else if leb_ℤ (pos 5000) pct && leb rank 20
    then some rising
    else if leb_ℤ pct (sub_ℕ 0 5000)
    then some cooling
    else none

module _ {Float : Type 0} where
  unfoldable pub same_hourly : TokenFlow Float → TokenFlow Float → Bool
  same_hourly r s =
      hour_matches r.hour s.hour
      && (str_eq r.token_address s.token_address && str_eq r.symbol s.symbol)

  -- The partitions of the window of `lag`; all rows have the date of the run.
  unfoldable pub same_token_address : HourlyBase Float → HourlyBase Float → Bool
  same_token_address b c = str_eq b.token_address c.token_address

  -- `lag("tx_count", 1)` along one partition.
  unfoldable pub with_lag : Option ℕ → List (HourlyBase Float) → List (WithTrend Float)
  with_lag prev [] = []
  with_lag prev (b ∷ bs) =
      record { group = b; tx_count_change_pct = change_pct prev b.tx_count }
      ∷ with_lag (some b.tx_count) bs

  -- `F.rank()` within the hour, the largest count first.
  unfoldable pub rank_by_tx_count : List (WithTrend Float) → HourlyBase Float → ℕ
  rank_by_tx_count all b =
      1
      + length (
          select
            (λ c.
              hour_matches b.hour (HourlyBase.hour (WithTrend.group c))
              && ltb b.tx_count (HourlyBase.tx_count (WithTrend.group c)))
            all)

  unfoldable pub final_hourly :
      List (WithTrend Float) → WithTrend Float → TokenPopularityHourly Float
  final_hourly all t = record {
    hour = HourlyBase.hour t.group;
    token_address = HourlyBase.token_address t.group;
    symbol = HourlyBase.symbol t.group;
    rank_by_tx_count = rank_by_tx_count all t.group;
    tx_count = HourlyBase.tx_count t.group;
    total_volume = HourlyBase.total_volume t.group;
    tx_count_change_pct = t.tx_count_change_pct;
    cex_net_flow = HourlyBase.cex_net_flow t.group;
    trending_signal = trending_signal t.tx_count_change_pct (rank_by_tx_count all t.group);
  }

module _ {Float : Type 0} (floats : Floats Float) where
  unfoldable pub hourly_row : List (TokenFlow Float) → TokenFlow Float → HourlyBase Float
  hourly_row rows r =
      let group = select (same_hourly r) rows in
      record {
        hour = r.hour;
        token_address = r.token_address;
        symbol = r.symbol;
        tx_count = length group;
        total_volume = floats.rounded_sum (map TokenFlow.amount group);
        cex_net_flow = floats.rounded_sum (map (cex_amount floats) group);
      }

  unfoldable pub hourly_base : List (TokenFlow Float) → List (HourlyBase Float)
  hourly_base rows = map (hourly_row rows) (distinct_by same_hourly rows)

  module _ (by_hour : List (HourlyBase Float) → List (HourlyBase Float)) where
    -- The partitions that `keys` stands for, each with its changes.
    unfoldable pub partitions :
        List (HourlyBase Float) → List (HourlyBase Float) → List (WithTrend Float)
    partitions rows [] = []
    partitions rows (k ∷ keys) =
        with_lag none (by_hour (select (same_token_address k) rows)) ++ partitions rows keys

    unfoldable pub with_trend : List (HourlyBase Float) → List (WithTrend Float)
    with_trend rows = partitions rows (distinct_by same_token_address rows)

    -- `has_status_1` is the filter; it raises where the schema has no column `status`.
    unfoldable pub build_token_popularity_hourly :
        (schema : List String) (has_status_1 : TokenFlow Float → Bool)
        (rows : List (TokenFlow Float))
        → Option (List (TokenPopularityHourly Float))
    build_token_popularity_hourly schema has_status_1 rows =
        if resolves schema ("status" ∷ [])
        then (let trends = with_trend (hourly_base (select has_status_1 rows)) in
            some (map (final_hourly trends) trends))
        else none
