-- ===== src/Address/Labels.antt =====
-- `resolve_category` of address/fetch_known_labels.py and the tables that it reads.
use eth_project.Prelude.{
  ◌≡◌, refl, inl, inr, Bool, true, false, ◌&&◌, Option, none, some, List, [], ◌∷◌, String, str_eq,
  str_eq_iff, any_of, Bool-cases, arith, if◌then◌else◌,
}

unfoldable pub tag_to_category : List (String × String)
tag_to_category =
    ("exchange", "CEX")
    ∷ ("binance", "CEX")
    ∷ ("coinbase", "CEX")
    ∷ ("kraken", "CEX")
    ∷ ("okex", "CEX")
    ∷ ("kucoin", "CEX")
    ∷ ("bybit", "CEX")
    ∷ ("bitfinex", "CEX")
    ∷ ("bithumb", "CEX")
    ∷ ("upbit", "CEX")
    ∷ ("huobi", "CEX")
    ∷ ("gate-io", "CEX")
    ∷ ("gemini", "CEX")
    ∷ ("bitstamp", "CEX")
    ∷ ("dex", "DEX")
    ∷ ("uniswap", "DEX")
    ∷ ("sushiswap", "DEX")
    ∷ ("curve-fi", "DEX")
    ∷ ("balancer", "DEX")
    ∷ ("1inch", "DEX")
    ∷ ("pancakeswap", "DEX")
    ∷ ("dydx", "DEX")
    ∷ ("paraswap", "DEX")
    ∷ ("cowswap", "DEX")
    ∷ ("0x-protocol", "DEX")
    ∷ ("kyberswap", "DEX")
    ∷ ("bridge", "Bridge")
    ∷ ("optimism-bridge", "Bridge")
    ∷ ("hop-protocol", "Bridge")
    ∷ ("stargate", "Bridge")
    ∷ ("wormhole", "Bridge")
    ∷ ("multichain", "Bridge")
    ∷ ("celer-network", "Bridge")
    ∷ ("across", "Bridge")
    ∷ ("synapse", "Bridge")
    ∷ ("defi", "DeFi")
    ∷ ("aave", "DeFi")
    ∷ ("compound", "DeFi")
    ∷ ("makerdao", "DeFi")
    ∷ ("lido", "DeFi")
    ∷ ("yearn", "DeFi")
    ∷ ("convex", "DeFi")
    ∷ ("lending", "DeFi")
    ∷ ("tornado-cash", "Mixer")
    ∷ ("phish-hack", "Sanctioned")
    ∷ ("heist", "Sanctioned")
    ∷ []

unfoldable pub skip_only_tags : List String
skip_only_tags =
    "contract-deployer" ∷ "donate" ∷ "old-contract" ∷ "deprecated" ∷ "delegate" ∷ "factory-contract"
    ∷ []

unfoldable pub target_categories : List String
target_categories = "CEX" ∷ "DEX" ∷ "Bridge" ∷ "DeFi" ∷ "Mixer" ∷ "Sanctioned" ∷ []

abbrev pub lookup : String → List (String × String) → Option String
lookup tag [] = none
lookup tag ((k, v) ∷ rest) = let later = lookup tag rest in if str_eq tag k then some v else later

-- `tag_set.issubset(…)`
abbrev pub all_in : List String → List String → Bool
all_in [] tags = true
all_in (x ∷ xs) tags = any_of (str_eq x) tags && all_in xs tags

-- `if cat and cat in TARGET_CATEGORIES`
unfoldable pub wanted : Option String → Bool
unfolding target_categories
wanted none = false
wanted (some cat) = any_of (str_eq cat) target_categories

-- The loop over the tags.
unfoldable pub first_category : List String → Option String
unfolding wanted tag_to_category
first_category [] = none
first_category (tag ∷ labels) =
    let rest = first_category labels in
    if wanted (lookup tag tag_to_category) then lookup tag tag_to_category else rest

unfoldable pub resolve_category : List String → Option String
unfolding first_category skip_only_tags
resolve_category labels = if all_in labels skip_only_tags then none else first_category labels

skip_has_none :
    (tag : String) → any_of (str_eq tag) skip_only_tags ≡ true → lookup tag tag_to_category ≡ none
unfolding skip_only_tags tag_to_category
skip_has_none tag h = elim (Bool-cases (str_eq tag "contract-deployer")) [
  | inl e ↦ named "contract-deployer" e refl
  | inr a ↦ elim (Bool-cases (str_eq tag "donate")) [
    | inl e ↦ named "donate" e refl
    | inr b ↦ elim (Bool-cases (str_eq tag "old-contract")) [
      | inl e ↦ named "old-contract" e refl
      | inr c ↦ elim (Bool-cases (str_eq tag "deprecated")) [
        | inl e ↦ named "deprecated" e refl
        | inr d ↦ elim (Bool-cases (str_eq tag "delegate")) [
          | inl e ↦ named "delegate" e refl
          | inr f ↦ elim (Bool-cases (str_eq tag "factory-contract")) [
            | inl e ↦ named "factory-contract" e refl
            | inr g ↦ absurd (rest a b c d f g h)
          ]
        ]
      ]
    ]
  ]
]
  where
    named :
        (t : String)
        → str_eq tag t ≡ true
        → lookup t tag_to_category ≡ none
        → lookup tag tag_to_category ≡ none
    named t e k = rw ((str_eq_iff tag t).0 e) k

    rest :
        str_eq tag "contract-deployer" ≡ false
        → str_eq tag "donate" ≡ false
        → str_eq tag "old-contract" ≡ false
        → str_eq tag "deprecated" ≡ false
        → str_eq tag "delegate" ≡ false
        → str_eq tag "factory-contract" ≡ false
        → any_of (str_eq tag) skip_only_tags ≡ true
        → ⊥
    rest a b c d f g h = ground (arith, a, b, c, d, f, g, h)

all_skipped :
    (labels : List String) → all_in labels skip_only_tags ≡ true → first_category labels ≡ none
unfolding first_category wanted
all_skipped [] h = refl
all_skipped (tag ∷ labels) h = elim (Bool-cases (any_of (str_eq tag) skip_only_tags)) [
  | inl skipped ↦ rw (skip_has_none tag skipped) (all_skipped labels (rw skipped at h))
  | inr other ↦ cc
]

-- The test for tags of no interest changes nothing: the category is the one of the first tag that has
-- a wanted category, for any list of tags.
pub resolve_category_lem : (labels : List String) → resolve_category labels ≡ first_category labels
unfolding resolve_category
resolve_category_lem labels = elim (Bool-cases (all_in labels skip_only_tags)) [
  | inl skipped ↦ rw (skipped, all_skipped labels skipped) refl
  | inr other ↦ rw other refl
]
