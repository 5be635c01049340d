-- ===== src/Gold/MarketFlow.antt =====
-- `build_market_flow_hourly` of gold/transform/market_flow_hourly.py, on the rows of whale_txns of
-- one date. A ratio is in units of 10 ^ -4; Spark's decimal division rounded to four places is
-- the parameter `divide`.
pub mod Labelled
use eth_project.Prelude.{
  ℕ, suc, ◌+◌, ◌-◌, ◌*◌, ◌/◌, ◌^◌, ◌≤◌, ◌<◌, ◌≡◌, ◌≢◌, refl, sym, inl, inr, ◌⊎◌, Bool, true, false,
  ◌&&◌, ◌||◌, Option, none, some, List, [], ◌∷◌, ◌++◌, map, leb, ltb, ◌==◌, if◌then◌else◌, length,
  select, any_of, arith, Bool-cases, lt→ltb,
}
use eth_project.Frame.{sum_by, distinct_by}
use eth_project.Frame.Joins.{left_join}
use eth_project.Silver.Whales.{
  WhaleTxn, FlowType, cex_deposit, cex_withdrawal, dex_trade, bridge_move, private_move, other,
}

unfoldable pub same_flow : FlowType → FlowType → Bool
same_flow cex_deposit cex_deposit = true
same_flow cex_withdrawal cex_withdrawal = true
same_flow dex_trade dex_trade = true
same_flow bridge_move bridge_move = true
same_flow private_move private_move = true
same_flow other other = true
same_flow f g = false

-- `F.round(…, 4)` of a decimal with 18 places.
unfoldable pub round_4 : ℕ → ℕ
round_4 v = (v + 5 * 10 ^ 13) / 10 ^ 14 * 10 ^ 14

abbrev pub same_group : WhaleTxn → WhaleTxn → Bool
same_group r s = (r.hour == s.hour) && same_flow r.flow_type s.flow_type

pub record FlowHour : Type 0 where
  pub hour : ℕ
  pub flow_type : FlowType
  pub total_eth : ℕ

unfoldable pub flow_hour : List WhaleTxn → WhaleTxn → FlowHour
flow_hour rows r = record {
  hour = r.hour;
  flow_type = r.flow_type;
  total_eth = round_4 (sum_by WhaleTxn.value_eth (select (same_group r) rows));
}

unfoldable pub agg : List WhaleTxn → List FlowHour
agg rows = map (flow_hour rows) (distinct_by same_group rows)

pub data Pressure : Type 0 where
  strong_sell mild_sell neutral_pressure mild_buy strong_buy : Pressure

unfoldable pub is_cex : WhaleTxn → Bool
is_cex r = same_flow r.flow_type cex_deposit || same_flow r.flow_type cex_withdrawal

abbrev pub value_when : FlowType → WhaleTxn → ℕ
value_when f r = if same_flow r.flow_type f then r.value_eth else 0

abbrev pub same_hour : WhaleTxn → WhaleTxn → Bool
same_hour r s = r.hour == s.hour

unfoldable pub pressure_of_ratio : Option ℕ → Pressure
pressure_of_ratio none = neutral_pressure
pressure_of_ratio (some ratio) =
    if ltb 15000 ratio
    then strong_sell
    else if ltb 10000 ratio
    then mild_sell
    else if ltb ratio 6700
    then strong_buy
    else if ltb ratio 10000
    then mild_buy
    else neutral_pressure

unfoldable pub pressure_label : ℕ → ℕ → Option ℕ → Pressure
pressure_label deposit withdrawal ratio =
    if (deposit == 0) && (withdrawal == 0)
    then neutral_pressure
    else if (withdrawal == 0) && ltb 0 deposit
    then strong_sell
    else if (deposit == 0) && ltb 0 withdrawal
    then strong_buy
    else pressure_of_ratio ratio

pub record Pivot : Type 0 where
  pub hour : ℕ
  pub cex_deposit_eth : ℕ
  pub cex_withdrawal_eth : ℕ
  pub deposit_withdrawal_ratio : Option ℕ
  pub pressure : Pressure

pub record MarketFlow : Type 0 where
  pub hour : ℕ
  pub flow_type : FlowType
  pub total_eth : ℕ
  pub cex_deposit_eth : ℕ
  pub cex_withdrawal_eth : ℕ
  pub deposit_withdrawal_ratio : Option ℕ
  pub pressure : Pressure

-- A row of the left join, with its defaults where the hour has no flow of an exchange.
unfoldable pub market_flow : FlowHour × Option Pivot → MarketFlow
market_flow (f, none) = record {
  hour = f.hour;
  flow_type = f.flow_type;
  total_eth = f.total_eth;
  cex_deposit_eth = 0;
  cex_withdrawal_eth = 0;
  deposit_withdrawal_ratio = none;
  pressure = neutral_pressure;
}
market_flow (f, some p) = record {
  hour = f.hour;
  flow_type = f.flow_type;
  total_eth = f.total_eth;
  cex_deposit_eth = p.cex_deposit_eth;
  cex_withdrawal_eth = p.cex_withdrawal_eth;
  deposit_withdrawal_ratio = p.deposit_withdrawal_ratio;
  pressure = p.pressure;
}

module _ (divide : ℕ → ℕ → ℕ) where
  unfoldable pub ratio_of : ℕ → ℕ → Option ℕ
  ratio_of deposit withdrawal = if withdrawal == 0 then none else some (divide deposit withdrawal)

  unfoldable pub pivot_row : List WhaleTxn → WhaleTxn → Pivot
  pivot_row rows r =
      let hour_rows = select (same_hour r) rows in
      let deposit = round_4 (sum_by (value_when cex_deposit) hour_rows) in
      let withdrawal = round_4 (sum_by (value_when cex_withdrawal) hour_rows) in
      record {
        hour = r.hour;
        cex_deposit_eth = deposit;
        cex_withdrawal_eth = withdrawal;
        deposit_withdrawal_ratio = ratio_of deposit withdrawal;
        pressure = pressure_label deposit withdrawal (ratio_of deposit withdrawal);
      }

  unfoldable pub cex_pivot : List WhaleTxn → List Pivot
  cex_pivot rows = let cex = select is_cex rows in map (pivot_row cex) (distinct_by same_hour cex)

  unfoldable pub build_market_flow_hourly : List WhaleTxn → List MarketFlow
  build_market_flow_hourly rows =
      map market_flow
        (left_join (λ f p. FlowHour.hour f == Pivot.hour p) (agg rows) (cex_pivot rows))
