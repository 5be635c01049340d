-- ===== src/Gold/TopWhales.antt =====
-- `build_top_whales_daily` of gold/transform/top_whales_daily.py, on the rows of whale_txns of one
-- date: the day's sums of each address, its ranks and its entity.
pub mod Flags
pub mod Totals
pub mod Ranks
use eth_project.Prelude.{
  ℕ, suc, ◌+◌, ◌-◌, ◌*◌, ◌/◌, ◌^◌, ◌≤◌, ◌≡◌, String, str_eq, Bool, true, false, ◌&&◌, not, Option,
  none, some, List, [], ◌∷◌, ◌++◌, map, leb, ltb, if◌then◌else◌, length, select, any_of, ℤ, pos,
  negsuc, ltb_ℤ, sub_ℕ, ◌==◌, ◌||◌,
}
use eth_project.Frame.{Address, same_key, joins_key, zero_if_null, sum_by, of_key, distinct_keys}
use eth_project.Frame.Joins.{outer_join}
use eth_project.Gold.Entities.{Entity, Arrange, joined_entity}
use eth_project.Silver.Whales.{WhaleTxn, Tier, humpback, whale, shark, crab, ether}

unfoldable pub assign_whale_tier : ℕ → Tier
assign_whale_tier activity =
    if leb (1000 * ether) activity
    then humpback
    else if leb (500 * ether) activity
    then whale
    else if leb (100 * ether) activity
    then shark
    else crab

abbrev pub flag_int : WhaleTxn → ℕ
flag_int r = if r.flag_high_freq then 1 else 0

unfoldable pub max_by : (WhaleTxn → ℕ) → List WhaleTxn → ℕ
max_by f [] = 0
max_by f (r ∷ rs) = let rest = max_by f rs in if leb (f r) rest then rest else f r

-- The rows that an address sent, and those that it received.
abbrev pub sent_by : Address → List WhaleTxn → List WhaleTxn
sent_by a rows = of_key WhaleTxn.from_address a rows

abbrev pub received_by : Address → List WhaleTxn → List WhaleTxn
received_by a rows = of_key WhaleTxn.to_address a rows

pub record SentGroup : Type 0 where
  pub address : Address
  pub total_sent_eth : ℕ
  pub tx_count_as_sender : ℕ
  pub hf_sent : ℕ

pub record RecvGroup : Type 0 where
  pub address : Address
  pub total_recv_eth : ℕ
  pub tx_count_as_receiver : ℕ

unfoldable pub sent_group : List WhaleTxn → Address → SentGroup
sent_group rows a = record {
  address = a;
  total_sent_eth = sum_by WhaleTxn.value_eth (sent_by a rows);
  tx_count_as_sender = length (sent_by a rows);
  hf_sent = max_by flag_int (sent_by a rows);
}

unfoldable pub recv_group : List WhaleTxn → Address → RecvGroup
recv_group rows a = record {
  address = a;
  total_recv_eth = sum_by WhaleTxn.value_eth (received_by a rows);
  tx_count_as_receiver = length (received_by a rows);
}

unfoldable pub sent_groups : List WhaleTxn → List SentGroup
sent_groups rows = map (sent_group rows) (distinct_keys (map WhaleTxn.from_address rows))

unfoldable pub recv_groups : List WhaleTxn → List RecvGroup
recv_groups rows = map (recv_group rows) (distinct_keys (map WhaleTxn.to_address rows))

pub record Joined : Type 0 where
  pub address : Address
  pub total_sent_eth : ℕ
  pub tx_count_as_sender : ℕ
  pub hf_sent : ℕ
  pub total_recv_eth : ℕ
  pub tx_count_as_receiver : ℕ

unfoldable pub joined_address : Option SentGroup → Option RecvGroup → Address
joined_address (some s) r = s.address
joined_address none (some r) = r.address
joined_address none none = none

-- A row of the outer join, with zero for what is missing.
unfoldable pub fill_zeros : Option SentGroup × Option RecvGroup → Joined
fill_zeros (s, r) = record {
  address = joined_address s r;
  total_sent_eth = zero_if_null SentGroup.total_sent_eth s;
  tx_count_as_sender = zero_if_null SentGroup.tx_count_as_sender s;
  hf_sent = zero_if_null SentGroup.hf_sent s;
  total_recv_eth = zero_if_null RecvGroup.total_recv_eth r;
  tx_count_as_receiver = zero_if_null RecvGroup.tx_count_as_receiver r;
}

abbrev pub same_address : SentGroup → RecvGroup → Bool
same_address s r = joins_key s.address r.address

unfoldable pub joined : List WhaleTxn → List Joined
joined rows = map fill_zeros (outer_join same_address (sent_groups rows) (recv_groups rows))

-- `F.round(…, 6)` of a decimal with 18 places.
unfoldable pub round_6 : ℕ → ℕ
round_6 v = (v + 5 * 10 ^ 11) / 10 ^ 12 * 10 ^ 12

unfoldable pub round_6_ℤ : ℤ → ℤ
round_6_ℤ (pos v) = pos (round_6 v)
round_6_ℤ (negsuc n) = sub_ℕ 0 (round_6 (suc n))

unfoldable pub net_flow_eth : Joined → ℤ
net_flow_eth j = round_6_ℤ (sub_ℕ j.total_recv_eth j.total_sent_eth)

unfoldable pub total_activity_eth : Joined → ℕ
total_activity_eth j = round_6 (j.total_sent_eth + j.total_recv_eth)

pub data Position : Type 0 where
  accumulator dumper neutral : Position

unfoldable pub position_label : ℤ → Position
position_label net =
    if ltb_ℤ (pos 0) net then accumulator else if ltb_ℤ net (pos 0) then dumper else neutral

-- `F.rank()` over all rows of the date: one more than the number of rows that come strictly before.
unfoldable pub rank_by : (Joined → Joined → Bool) → List Joined → Joined → ℕ
rank_by before rows j = 1 + length (select (λ k. before k j) rows)

abbrev pub more_net : Joined → Joined → Bool
more_net k j = ltb_ℤ (net_flow_eth j) (net_flow_eth k)

abbrev pub less_net : Joined → Joined → Bool
less_net k j = ltb_ℤ (net_flow_eth k) (net_flow_eth j)

abbrev pub more_active : Joined → Joined → Bool
more_active k j = ltb (total_activity_eth j) (total_activity_eth k)

pub record TopWhale : Type 0 where
  pub address : Address
  pub entity : Option Entity
  pub whale_tier : Tier
  pub position_label : Position
  pub net_flow_eth : ℤ
  pub total_sent_eth : ℕ
  pub total_recv_eth : ℕ
  pub total_activity_eth : ℕ
  pub total_tx_count : ℕ
  pub tx_count_as_sender : ℕ
  pub tx_count_as_receiver : ℕ
  pub rank_accumulator : ℕ
  pub rank_dumper : ℕ
  pub rank_activity : ℕ
  pub flag_high_freq : Bool

unfoldable pub top_whale : Arrange → List WhaleTxn → List Joined → Joined → TopWhale
top_whale arrange rows all j = record {
  address = j.address;
  entity = joined_entity arrange rows j.address;
  whale_tier = assign_whale_tier (total_activity_eth j);
  position_label = position_label (net_flow_eth j);
  net_flow_eth = net_flow_eth j;
  total_sent_eth = j.total_sent_eth;
  total_recv_eth = j.total_recv_eth;
  total_activity_eth = total_activity_eth j;
  total_tx_count = j.tx_count_as_sender + j.tx_count_as_receiver;
  tx_count_as_sender = j.tx_count_as_sender;
  tx_count_as_receiver = j.tx_count_as_receiver;
  rank_accumulator = rank_by more_net all j;
  rank_dumper = rank_by less_net all j;
  rank_activity = rank_by more_active all j;
  flag_high_freq = not (j.hf_sent == 0);
}

unfoldable pub build_top_whales_daily : Arrange → List WhaleTxn → List TopWhale
build_top_whales_daily arrange rows = map (top_whale arrange rows (joined rows)) (joined rows)
