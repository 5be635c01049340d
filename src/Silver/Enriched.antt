-- ===== src/Silver/Enriched.antt =====
-- `build_txn_enriched` of silver/transform/txn_enriched.py. Wei are made ether by Spark's decimal
-- division, the parameter `to_eth`, which is null where it overflows; a product of two columns
-- is null where one of them is.
use eth_project.Prelude.{
  ℕ, ◌*◌, ◌≡◌, refl, ap, ◌∙◌, String, str_eq, Bool, true, false, ◌&&◌, not, Option, none, some,
  List, [], ◌∷◌, map, if◌then◌else◌, ◌==◌,
}
use eth_project.Frame.{Address, joins}
use eth_project.Frame.Joins.{left_join, left_join-rows, unique_matches, IsUnique}

pub record BronzeTxn : Type 0 where
  pub hash : String
  pub block_number : ℕ
  pub block_timestamp : ℕ
  pub from_address : Address
  pub to_address : Address
  pub value : Option ℕ
  pub input : Option String

pub record Receipt : Type 0 where
  pub transaction_hash : String
  pub status : Option ℕ
  pub gas_used : Option ℕ
  pub effective_gas_price : Option ℕ

pub record Enriched : Type 0 where
  pub hash : String
  pub block_number : ℕ
  pub block_timestamp : ℕ
  pub from_address : Address
  pub to_address : Address
  pub value_eth : Option ℕ
  pub tx_fee_eth : Option ℕ
  pub is_success : Option Bool
  pub is_contract_call : Option Bool
  pub is_contract_deploy : Bool
  pub dt : ℕ

-- `status == 1`, null where there is no status.
unfoldable pub is_one : Option ℕ → Option Bool
is_one none = none
is_one (some s) = some (s == 1)

unfoldable pub receipt_field {ℓ} : {A : Type ℓ} → (Receipt → Option A) → Option Receipt → Option A
receipt_field f none = none
receipt_field f (some r) = f r

unfoldable pub times : Option ℕ → Option ℕ → Option ℕ
times none b = none
times (some a) none = none
times (some a) (some b) = some (a * b)

unfoldable pub is_contract_deploy : Address → Bool
is_contract_deploy none = true
is_contract_deploy (some a) = str_eq a ""

-- `to_address is not null and to_address != "" and input != "0x"`: false where one part is false, else null where the input is.
unfoldable pub is_contract_call : Address → Option String → Option Bool
is_contract_call none input = some false
is_contract_call (some a) none = if str_eq a "" then some false else none
is_contract_call (some a) (some i) = some (not (str_eq a "") && not (str_eq i "0x"))

module _ (to_eth : ℕ → Option ℕ) (date_of : ℕ → ℕ) where
  unfoldable pub eth_of : Option ℕ → Option ℕ
  eth_of none = none
  eth_of (some wei) = to_eth wei

  unfoldable pub enriched_row : BronzeTxn × Option Receipt → Enriched
  enriched_row (t, r) = record {
    hash = t.hash;
    block_number = t.block_number;
    block_timestamp = t.block_timestamp;
    from_address = t.from_address;
    to_address = t.to_address;
    value_eth = eth_of t.value;
    tx_fee_eth =
        eth_of
          (times (receipt_field Receipt.gas_used r) (receipt_field Receipt.effective_gas_price r));
    is_success = is_one (receipt_field Receipt.status r);
    is_contract_call = is_contract_call t.to_address t.input;
    is_contract_deploy = is_contract_deploy t.to_address;
    dt = date_of t.block_timestamp;
  }

  abbrev pub same_hash : BronzeTxn → Receipt → Bool
  same_hash t r = joins (some t.hash) r.transaction_hash

  unfoldable pub build_txn_enriched : List BronzeTxn → List Receipt → List Enriched
  build_txn_enriched txns receipts = map enriched_row (left_join same_hash txns receipts)

  hashes :
      (rows : List (BronzeTxn × Option Receipt))
      → map Enriched.hash (map enriched_row rows) ≡ map BronzeTxn.hash (map (λ p. p.0) rows)
  unfolding enriched_row
  hashes [] = refl
  hashes ((t, r) ∷ rows) = ap (λ l. t.hash ∷ l) (hashes rows)

  -- With one receipt for each transaction at most, every transaction is kept once and in order.
  pub build_txn_enriched-rows :
      (txns : List BronzeTxn) (receipts : List Receipt)
      → IsUnique Receipt.transaction_hash receipts
      → map Enriched.hash (build_txn_enriched txns receipts) ≡ map BronzeTxn.hash txns
  unfolding build_txn_enriched
  build_txn_enriched-rows txns receipts unique =
      hashes (left_join same_hash txns receipts)
      ∙ ap (map BronzeTxn.hash) (
          left_join-rows same_hash txns receipts
            (λ t. unique_matches Receipt.transaction_hash (some t.hash) receipts unique))
