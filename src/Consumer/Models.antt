-- ===== src/Consumer/Models.antt =====
-- consumer/models.py: the pydantic models of the three topics. A model that cannot be built is
-- `none`, pydantic's `ValidationError`.
use eth_project.Prelude.{String, Option, none, some, List, [], ◌∷◌, ℤ, pos, if◌then◌else◌}
use eth_project.Json.{Json, null, Fields, truthy, get_field, first_field}
use eth_project.Runtime.{Runtime, DateTime}

infixl 5 ◌>>=◌
abbrev ◌>>=◌ {ℓ κ} : {A : Type ℓ} {B : Type κ} → Option A → (A → Option B) → Option B
none >>= f = none
some a >>= f = f a

pub record BlockModel : Type 0 where
  pub number : ℤ
  pub timestamp : DateTime

pub record TransactionModel : Type 0 where
  pub hash : String
  pub timestamp : DateTime
  pub from_address : String
  pub to_address : Option String
  pub value : ℤ
  pub gas_price : ℤ

pub record TokenTransferModel : Type 0 where
  pub transaction_hash : String
  pub log_index : ℤ
  pub timestamp : Option DateTime
  pub block_number : ℤ
  pub token_address : String
  pub from_address : String
  pub to_address : String
  pub value : ℤ

abbrev timestamp_aliases : List String
timestamp_aliases = "timestamp" ∷ "block_timestamp" ∷ "item_timestamp" ∷ []

-- `parse_eth_timestamp` at the moment `now`.
unfoldable pub parse_eth_timestamp : Runtime → DateTime → Json → DateTime
unfolding truthy
parse_eth_timestamp rt now v =
    if truthy v then elim (rt.fromtimestamp v) [ some t ↦ t | none ↦ now ] else now

-- A field with a default, and one that may be null.
or_default : (Json → Option ℤ) → ℤ → Option Json → Option ℤ
or_default coerce d none = some d
or_default coerce d (some v) = coerce v

optional_str : Runtime → Option Json → Option (Option String)
optional_str rt none = some none
optional_str rt (some null) = some none
optional_str rt (some v) = do s ← rt.as_str v; some (some s)

unfoldable pub block_model : Runtime → Fields → Option BlockModel
unfolding get_field first_field
block_model rt d = do
  number ← get_field "number" d >>= rt.as_int
  timestamp ← first_field timestamp_aliases d >>= rt.as_datetime
  some (record { number = number; timestamp = timestamp })

module _ (rt : Runtime) (now : DateTime) where
  -- The validator runs before pydantic's own check, so the timestamp is never refused.
  unfoldable pub transaction_model : Fields → Option TransactionModel
  unfolding get_field first_field parse_eth_timestamp or_default optional_str
  transaction_model d = do
    hash ← get_field "hash" d >>= rt.as_str
    raw ← first_field timestamp_aliases d
    from_address ← get_field "from_address" d >>= rt.as_str
    to_address ← optional_str rt (get_field "to_address" d)
    value ← or_default rt.as_int (pos 0) (get_field "value" d)
    gas_price ← or_default rt.as_int (pos 0) (get_field "gas_price" d)
    some (record {
      hash = hash;
      timestamp = parse_eth_timestamp rt now raw;
      from_address = from_address;
      to_address = to_address;
      value = value;
      gas_price = gas_price;
    })

  -- A default is not validated: the timestamp of a transfer stays `none` where no key gives one.
  transfer_timestamp : Option Json → Option DateTime
  unfolding parse_eth_timestamp
  transfer_timestamp none = none
  transfer_timestamp (some v) = some (parse_eth_timestamp rt now v)

  unfoldable pub token_transfer_model : Fields → Option TokenTransferModel
  unfolding get_field first_field transfer_timestamp or_default
  token_transfer_model d = do
    transaction_hash ← get_field "transaction_hash" d >>= rt.as_str
    log_index ← get_field "log_index" d >>= rt.as_int
    block_number ← get_field "block_number" d >>= rt.as_int
    token_address ← get_field "token_address" d >>= rt.as_str
    from_address ← get_field "from_address" d >>= rt.as_str
    to_address ← get_field "to_address" d >>= rt.as_str
    value ← or_default rt.as_int (pos 0) (get_field "value" d)
    some (record {
      transaction_hash = transaction_hash;
      log_index = log_index;
      timestamp = transfer_timestamp (first_field timestamp_aliases d);
      block_number = block_number;
      token_address = token_address;
      from_address = from_address;
      to_address = to_address;
      value = value;
    })
