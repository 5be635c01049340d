-- ===== src/Silver/TokenFlow.antt =====
-- `build_token_flow` of silver/transform/token_flow.py. The amount, a float, the hour and the date
-- of a timestamp are parameters.
pub mod Kept
use eth_project.Prelude.{
  ℕ, ◌+◌, ◌≤◌, ◌≡◌, refl, sym, ap, ◌∙◌, String, str_eq, Bool, true, false, Option, none, some, List,
  [], ◌∷◌, ◌++◌, map, length, select, any_of, if◌then◌else◌, ◌==◌, inl, inr, Bool-cases, arith,
}
use eth_project.Frame.{Address, joins}
use eth_project.Frame.Joins.{left_join, left_join-rows, unique_matches, IsUnique}
use eth_project.Silver.Labels.{Label}
use eth_project.Silver.Whales.{label_of, category_of}

pub record Transfer : Type 0 where
  pub transaction_hash : String
  pub block_number : ℕ
  pub token_address : String
  pub from_address : Address
  pub to_address : Address
  pub value : String

pub record TokenMeta : Type 0 where
  pub token_address : String
  pub symbol : String
  pub token_name : String
  pub decimals : ℕ

pub record Block : Type 0 where
  pub number : ℕ
  pub timestamp : ℕ

-- The matches of one row in an inner join.
unfoldable pub with_meta : Transfer → List TokenMeta → List (Transfer × TokenMeta)
with_meta t metas =
    map (λ m. (t, m)) (select (λ m. str_eq t.token_address (TokenMeta.token_address m)) metas)

unfoldable pub inner_join : List Transfer → List TokenMeta → List (Transfer × TokenMeta)
inner_join [] metas = []
inner_join (t ∷ ts) metas = with_meta t metas ++ inner_join ts metas

unfoldable pub time_of : Option Block → Option ℕ
time_of none = none
time_of (some b) = some b.timestamp

pub record TokenFlow (Float : Type 0) : Type 0 where
  pub transaction_hash : String
  pub block_timestamp : Option ℕ
  pub hour : Option ℕ
  pub dt : Option ℕ
  pub token_address : String
  pub symbol : String
  pub token_name : String
  pub from_address : Address
  pub from_label : String
  pub from_category : String
  pub to_address : Address
  pub to_label : String
  pub to_category : String
  pub amount : Float

abbrev pub WithBlock : Type 0
WithBlock = (Transfer × TokenMeta) × Option Block

abbrev pub transfer_of : WithBlock → Transfer
transfer_of w = w.0.0

-- The three joins that add columns.
abbrev pub with_blocks : List (Transfer × TokenMeta) → List Block → List WithBlock
with_blocks rows blocks =
    left_join (λ p b. Transfer.block_number (p.0) == Block.number b) rows blocks

abbrev pub with_from : List WithBlock → List Label → List (WithBlock × Option Label)
with_from rows labels =
    left_join (λ w l. joins (Transfer.from_address (w.0.0)) (Label.address l)) rows labels

abbrev pub with_to :
    List (WithBlock × Option Label) → List Label → List ((WithBlock × Option Label) × Option Label)
with_to rows labels =
    left_join (λ w l. joins (Transfer.to_address (w.0.0.0)) (Label.address l)) rows labels

module _ {Float : Type 0} (amount_of : String → ℕ → Float)
    (hour_of date_of : Option ℕ → Option ℕ) where
  unfoldable pub flow_row : ((WithBlock × Option Label) × Option Label) → TokenFlow Float
  flow_row ((((t, m), b), f), l) = record {
    transaction_hash = t.transaction_hash;
    block_timestamp = time_of b;
    hour = hour_of (time_of b);
    dt = date_of (time_of b);
    token_address = t.token_address;
    symbol = m.symbol;
    token_name = m.token_name;
    from_address = t.from_address;
    from_label = label_of f;
    from_category = category_of f;
    to_address = t.to_address;
    to_label = label_of l;
    to_category = category_of l;
    amount = amount_of t.value m.decimals;
  }

  unfoldable pub build_token_flow :
      List Transfer → List TokenMeta → List Block → List Label → List (TokenFlow Float)
  build_token_flow transfers metas blocks labels =
      map flow_row
        (with_to (with_from (with_blocks (inner_join transfers metas) blocks) labels) labels)
