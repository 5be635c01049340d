-- ===== src/Lake/Extract/Whales.antt =====
-- Which transactions `_extract_tx_hashes` takes.
use eth_project.Prelude.{
  String, ◌≡◌, refl, Bool, true, false, some, List, [], ◌∷◌, map, select, ℤ, leb_ℤ, str_eq, inl,
  inr, Bool-cases,
}
use eth_project.Json.{obj, str, Fields, get_field}
use eth_project.Consumer.Producer.{whale_threshold_wei}
use eth_project.Lake.Extract.{Decode, or_zero, whale_lines}

-- The lines of a file hold these transactions, by hash and value in wei, and blank lines.
pub data Holds (d : Decode) : List String → List (String × ℤ) → Type 0 where
  end_of : Holds d [] []
  blank :
      {lines : List String} {txs : List (String × ℤ)} (line : String)
      → str_eq line "" ≡ true
      → Holds d lines txs
      → Holds d (line ∷ lines) txs
  transaction_line :
      {lines : List String} {txs : List (String × ℤ)} (line h : String) (fs : Fields) (value : ℤ)
      → str_eq line "" ≡ false
      → d.loads line ≡ some (obj fs)
      → get_field "hash" fs ≡ some (str h)
      → d.int_of (or_zero (get_field "value" fs)) ≡ some value
      → Holds d lines txs
      → Holds d (line ∷ lines) ((h, value) ∷ txs)

abbrev pub is_whale_value : String × ℤ → Bool
is_whale_value (h, value) = leb_ℤ whale_threshold_wei value

-- Of a file of transactions the hashes are taken, in their order, of those whose value reaches the
-- threshold of the consumer's whale alerts.
pub whale_lines_lem :
    (d : Decode) (lines : List String) (txs : List (String × ℤ))
    → Holds d lines txs
    → whale_lines d lines ≡ some (map (λ t. t.0) (select is_whale_value txs))
unfolding whale_lines
whale_lines_lem d lines txs end_of = refl
whale_lines_lem d lines txs (blank line empty rest) = rw empty (whale_lines_lem d _ txs rest)
whale_lines_lem d lines txs
      (transaction_line {lines = ls} {txs = ts} line h fs value proper decoded hash_of value_of
        rest) =
    rw (proper, decoded, value_of)
      (elim (Bool-cases (leb_ℤ whale_threshold_wei value)) [
        | inl whale ↦ rw (whale, hash_of, whale_lines_lem d ls ts rest) refl
        | inr small ↦ rw (small, whale_lines_lem d ls ts rest) refl
      ])
