-- ===== src/Silver/Whales/Flow.antt =====
-- The kinds of flow of whale_txns.
use eth_project.Prelude.{◌≡◌, refl, ◌↔◌, String, str_eq, str_eq_iff, true, false, arith}
use eth_project.Silver.Whales.{
  FlowType, cex_deposit, cex_withdrawal, dex_trade, bridge_move, private_move, other, flow_type,
  is_private_transaction,
}

-- Two names that differ are not both equal to a category.
one_name : (s : String) → str_eq s "Unknown" ≡ true → str_eq s "CEX" ≡ false
one_name s h = rw ((str_eq_iff s "Unknown").0 h) refl

not_dex : (s : String) → str_eq s "Unknown" ≡ true → str_eq s "DEX" ≡ false
not_dex s h = rw ((str_eq_iff s "Unknown").0 h) refl

not_bridge : (s : String) → str_eq s "Unknown" ≡ true → str_eq s "Bridge" ≡ false
not_bridge s h = rw ((str_eq_iff s "Unknown").0 h) refl

-- A row is a private move just when neither side has a category.
pub flow_type-is_private_transaction :
    (from to : String)
    → (flow_type from to ≡ private_move) ↔ (is_private_transaction from to ≡ true)
unfolding flow_type is_private_transaction
flow_type-is_private_transaction from to =
    ground
      (arith, one_name from, one_name to, not_dex from, not_dex to, not_bridge from, not_bridge to)

-- The flow of a transaction in the other direction.
abbrev pub reversed : FlowType → FlowType
reversed cex_deposit = cex_withdrawal
reversed cex_withdrawal = cex_deposit
reversed dex_trade = dex_trade
reversed bridge_move = bridge_move
reversed private_move = private_move
reversed other = other

-- With its sides exchanged, a deposit is a withdrawal, and all other kinds stay.
pub flow_type-reversed : (from to : String) → flow_type to from ≡ reversed (flow_type from to)
unfolding flow_type
flow_type-reversed from to = ground (arith, one_name from, one_name to)
