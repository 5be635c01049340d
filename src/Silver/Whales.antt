-- ===== src/Silver/Whales.antt =====
-- `build_whale_txns` of silver/transform/whale_txns.py, on the rows of one day. Amounts are the
-- decimals of the column value_eth in units of 10 ^ -18 ether; the rows are those of one date.
pub mod Flow
pub mod Windows
pub mod Joined
use eth_project.Prelude.{
  ℕ, suc, ◌+◌, ◌*◌, ◌^◌, ◌≡◌, String, str_eq, Bool, true, false, ◌&&◌, ◌||◌, Option, none, some,
  List, [], ◌∷◌, ◌++◌, map, leb, ltb, if◌then◌else◌, length,
}
use eth_project.Frame.{Address, joins, sum_by, of_key}
use eth_project.Frame.Joins.{left_join}
use eth_project.Silver.Labels.{Label}

-- The columns of txn_enriched that are read.
pub record Txn : Type 0 where
  pub hash : String
  pub block_timestamp : ℕ
  pub from_address : Address
  pub to_address : Address
  pub value_eth : Option ℕ
  pub is_success : Option Bool

abbrev pub ether : ℕ
ether = 10 ^ 18

pub data FlowType : Type 0 where
  cex_deposit cex_withdrawal dex_trade bridge_move private_move other : FlowType

pub data Tier : Type 0 where
  humpback whale shark crab : Tier

-- A comparison with null is null, and a filter drops its row.
unfoldable pub at_least : ℕ → Option ℕ → Bool
at_least threshold none = false
at_least threshold (some v) = leb threshold v

unfoldable pub is_true : Option Bool → Bool
is_true none = false
is_true (some b) = b

-- A row that passed the filters, so that its value is there.
pub record Whale : Type 0 where
  pub hash : String
  pub block_timestamp : ℕ
  pub from_address : Address
  pub to_address : Address
  pub value_eth : ℕ

abbrev pub or_zero_eth : Option ℕ → ℕ
or_zero_eth none = 0
or_zero_eth (some v) = v

unfoldable pub whale_row : Txn → Whale
whale_row t = record {
  hash = t.hash;
  block_timestamp = t.block_timestamp;
  from_address = t.from_address;
  to_address = t.to_address;
  value_eth = or_zero_eth t.value_eth;
}

unfoldable pub is_whale_txn : ℕ → Txn → Bool
is_whale_txn threshold t = at_least threshold t.value_eth && is_true t.is_success

unfoldable pub whale_rows : ℕ → List Txn → List Whale
whale_rows threshold [] = []
whale_rows threshold (t ∷ ts) =
    let rest = whale_rows threshold ts in
    if is_whale_txn threshold t then whale_row t ∷ rest else rest

unfoldable pub label_of : Option Label → String
label_of none = "Unknown"
label_of (some l) = l.label_name

unfoldable pub category_of : Option Label → String
category_of none = "Unknown"
category_of (some l) = l.label_category

-- A whale row with its labels, the amounts of its windows added later.
pub record Labelled : Type 0 where
  pub txn : Whale
  pub from_label : String
  pub from_category : String
  pub to_label : String
  pub to_category : String

unfoldable pub labelled_row : ((Whale × Option Label) × Option Label) → Labelled
labelled_row ((w, f), t) = record {
  txn = w;
  from_label = label_of f;
  from_category = category_of f;
  to_label = label_of t;
  to_category = category_of t;
}

unfoldable pub label_whales : List Whale → List Label → List Labelled
label_whales whales labels = map labelled_row (
    left_join (λ p l. joins (Whale.to_address (p.0)) (Label.address l))
      (left_join (λ w l. joins (Whale.from_address w) (Label.address l)) whales labels) labels)

unfoldable pub whale_tier : ℕ → Tier
whale_tier v =
    if leb (10000 * ether) v
    then humpback
    else if leb (1000 * ether) v
    then whale
    else if leb (100 * ether) v
    then shark
    else crab

unfoldable pub flow_type : String → String → FlowType
flow_type from to =
    if str_eq from "Unknown" && str_eq to "CEX"
    then cex_deposit
    else if str_eq from "CEX" && str_eq to "Unknown"
    then cex_withdrawal
    else if str_eq from "DEX" || str_eq to "DEX"
    then dex_trade
    else if str_eq from "Bridge" || str_eq to "Bridge"
    then bridge_move
    else if str_eq from "Unknown" && str_eq to "Unknown"
    then private_move
    else other

unfoldable pub is_private_transaction : String → String → Bool
is_private_transaction from to = str_eq from "Unknown" && str_eq to "Unknown"

abbrev pub sender : Labelled → Address
sender r = r.txn.from_address

abbrev pub amount : Labelled → ℕ
amount r = r.txn.value_eth

-- A row with the columns of the window over its sender.
pub record SentRow : Type 0 where
  pub row : Labelled
  pub cumul_sent_eth : ℕ
  pub cumul_tx_count : ℕ

abbrev pub receiver : SentRow → Address
receiver s = s.row.txn.to_address

abbrev pub sent_amount : SentRow → ℕ
sent_amount s = s.row.txn.value_eth

-- The row that follows those of `seen`, with the sums from its sender's first row up to it.
unfoldable pub sent_row : List Labelled → Labelled → SentRow
sent_row seen r = record {
  row = r;
  cumul_sent_eth = sum_by amount (of_key sender (sender r) (r ∷ seen));
  cumul_tx_count = length (of_key sender (sender r) (r ∷ seen));
}

unfoldable pub over_from : List Labelled → List Labelled → List SentRow
over_from seen [] = []
over_from seen (r ∷ rs) = sent_row seen r ∷ over_from (r ∷ seen) rs

unfoldable pub flag_high_freq : SentRow → Bool
flag_high_freq s = leb 5 s.cumul_tx_count && leb (500 * ether) s.cumul_sent_eth

-- A row of whale_txns.
pub record WhaleTxn : Type 0 where
  pub hash : String
  pub block_timestamp : ℕ
  pub hour : ℕ
  pub from_address : Address
  pub from_label : String
  pub from_entity : String
  pub from_category : String
  pub to_address : Address
  pub to_label : String
  pub to_entity : String
  pub to_category : String
  pub value_eth : ℕ
  pub cumul_sent_eth : ℕ
  pub cumul_tx_count : ℕ
  pub cumul_recv_eth : ℕ
  pub whale_tier : Tier
  pub flow_type : FlowType
  pub is_private_transaction : Bool
  pub flag_high_freq : Bool

-- What Spark decides or computes: the order of rows with one timestamp in the two windows, the
-- hour of a timestamp, and the trimmed match of `^([^0-9:#]+)` in a label.
pub record Engine : Type 0 where
  pub arrange_from : List Labelled → List Labelled
  pub arrange_to : List SentRow → List SentRow
  pub hour_of : ℕ → ℕ
  pub entity_name_of : String → String

unfoldable pub final_row : Engine → ℕ → SentRow → WhaleTxn
final_row engine received s = record {
  hash = s.row.txn.hash;
  block_timestamp = s.row.txn.block_timestamp;
  hour = engine.hour_of s.row.txn.block_timestamp;
  from_address = s.row.txn.from_address;
  from_label = s.row.from_label;
  from_entity = engine.entity_name_of s.row.from_label;
  from_category = s.row.from_category;
  to_address = s.row.txn.to_address;
  to_label = s.row.to_label;
  to_entity = engine.entity_name_of s.row.to_label;
  to_category = s.row.to_category;
  value_eth = s.row.txn.value_eth;
  cumul_sent_eth = s.cumul_sent_eth;
  cumul_tx_count = s.cumul_tx_count;
  cumul_recv_eth = received;
  whale_tier = whale_tier s.row.txn.value_eth;
  flow_type = flow_type s.row.from_category s.row.to_category;
  is_private_transaction = is_private_transaction s.row.from_category s.row.to_category;
  flag_high_freq = flag_high_freq s;
}

-- The window over the receiver, and the columns that are computed row by row.
unfoldable pub over_to : Engine → List SentRow → List SentRow → List WhaleTxn
over_to engine seen [] = []
over_to engine seen (s ∷ ss) =
    final_row engine (sum_by sent_amount (of_key receiver (receiver s) (s ∷ seen))) s
    ∷ over_to engine (s ∷ seen) ss

unfoldable pub build_whale_txns : Engine → ℕ → List Label → List Txn → List WhaleTxn
build_whale_txns engine threshold labels txns = over_to engine [] (
    engine.arrange_to
      (over_from [] (engine.arrange_from (label_whales (whale_rows threshold txns) labels))))
