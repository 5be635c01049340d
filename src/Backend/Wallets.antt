-- ===== src/Backend/Wallets.antt =====
-- `WalletService.get_wallet_history` of backend/services/wallet_service.py, over the rows that
-- `WalletRepository` returns. A float quotient is kept as its two parts.
pub mod Directions
pub mod Failures
use eth_project.Prelude.{
  ℕ, zero, suc, ◌*◌, ◌^◌, String, Bool, true, false, Option, none, some, List, [], ◌∷◌, ℤ, pos,
  str_eq, eqb_ℤ, if◌then◌else◌,
}
use eth_project.Runtime.{DateTime}

-- A row of `transactions`, joined with the labels of its two addresses.
pub record EthRow : Type 0 where
  pub hash : String
  pub timestamp : DateTime
  pub from_address : Option String
  pub to_address : Option String
  pub value : Option ℤ
  pub gas_price : Option ℤ
  pub from_label : Option String
  pub to_label : Option String
  pub from_category : Option String
  pub to_category : Option String

-- A row of `token_transfers`, joined with its token and the labels.
pub record TokenRow : Type 0 where
  pub hash : String
  pub timestamp : DateTime
  pub from_address : Option String
  pub to_address : Option String
  pub value : Option ℤ
  pub symbol : Option String
  pub decimals : Option ℕ
  pub from_label : Option String
  pub to_label : Option String
  pub from_category : Option String
  pub to_category : Option String

pub data Direction : Type 0 where
  outgoing incoming : Direction

pub record EthTransactionHistory : Type 0 where
  pub hash : String
  pub timestamp : DateTime
  pub type_ : Direction
  pub from_address : String
  pub to_address : String
  pub value_eth : ℤ × ℕ
  pub gas_price_gwei : Option (ℤ × ℕ)
  pub from_label : Option String
  pub to_label : Option String
  pub from_category : Option String
  pub to_category : Option String

pub record TokenTransferHistory : Type 0 where
  pub hash : String
  pub timestamp : DateTime
  pub type_ : Direction
  pub from_address : String
  pub to_address : String
  pub symbol : String
  pub value : ℤ × ℕ
  pub from_label : Option String
  pub to_label : Option String
  pub from_category : Option String
  pub to_category : Option String

pub record WalletHistory : Type 0 where
  pub address : String
  pub eth_transactions : List EthTransactionHistory
  pub token_transfers : List TokenTransferHistory

infixl 5 ◌>>=◌
abbrev pub ◌>>=◌ {ℓ κ} : {A : Type ℓ} {B : Type κ} → Option A → (A → Option B) → Option B
none >>= f = none
some a >>= f = f a

module _ (lower : String → String) where
  -- `row['from_address'].lower() if row['from_address'] else ""`
  abbrev pub from_addr : Option String → String
  from_addr none = ""
  from_addr (some a) = if str_eq a "" then "" else lower a

  unfoldable pub direction : String → Option String → Direction
  direction address from_address =
      if str_eq (from_addr from_address) address then outgoing else incoming

  -- Zero counts as no price.
  abbrev pub gwei : Option ℤ → Option (ℤ × ℕ)
  gwei none = none
  gwei (some p) = if eqb_ℤ p (pos 0) then none else some (p, 10 ^ 9)

  -- `row['decimals'] if row['decimals'] else 18`
  unfoldable pub token_decimals : Option ℕ → ℕ
  token_decimals none = 18
  token_decimals (some zero) = 18
  token_decimals (some (suc n)) = suc n

  -- `row['symbol'] or "UNKNOWN"`
  unfoldable pub symbol_of : Option String → String
  symbol_of none = "UNKNOWN"
  symbol_of (some s) = if str_eq s "" then "UNKNOWN" else s

  -- `none` where `float(None)` or the model raises: both of its addresses are texts.
  unfoldable pub eth_history : String → EthRow → Option EthTransactionHistory
  unfolding direction
  eth_history address row = do
    value ← row.value
    from_address ← row.from_address
    to_address ← row.to_address
    some (record {
      hash = row.hash;
      timestamp = row.timestamp;
      type_ = direction address row.from_address;
      from_address = from_address;
      to_address = to_address;
      value_eth = (value, 10 ^ 18);
      gas_price_gwei = gwei row.gas_price;
      from_label = row.from_label;
      to_label = row.to_label;
      from_category = row.from_category;
      to_category = row.to_category;
    })

  unfoldable pub token_history : String → TokenRow → Option TokenTransferHistory
  unfolding direction token_decimals symbol_of
  token_history address row = do
    value ← row.value
    from_address ← row.from_address
    to_address ← row.to_address
    some (record {
      hash = row.hash;
      timestamp = row.timestamp;
      type_ = direction address row.from_address;
      from_address = from_address;
      to_address = to_address;
      symbol = symbol_of row.symbol;
      value = (value, 10 ^ token_decimals row.decimals);
      from_label = row.from_label;
      to_label = row.to_label;
      from_category = row.from_category;
      to_category = row.to_category;
    })

  -- The loop over the rows: the first row that raises ends it.
  abbrev pub each {ℓ κ} : {A : Type ℓ} {B : Type κ} → (A → Option B) → List A → Option (List B)
  each f [] = some []
  each f (x ∷ xs) = let rest = each f xs in f x >>= λ y. rest >>= λ ys. some (y ∷ ys)

  -- The answers of the two queries for the lowered address; `none` is `DatabaseFetchError`.
  unfoldable pub get_wallet_history :
      (String → Option (List EthRow))
      → (String → Option (List TokenRow))
      → String
      → Option WalletHistory
  unfolding eth_history token_history
  get_wallet_history eth_rows token_rows raw_address =
      let address = lower raw_address in
      do
        eths ← eth_rows address
        tokens ← token_rows address
        eth_txs ← each (eth_history address) eths
        token_txs ← each (token_history address) tokens
        some (record { address = address; eth_transactions = eth_txs; token_transfers = token_txs })
