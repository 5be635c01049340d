-- ===== src/Silver/TokenFlow/Kept.antt =====
-- Which transfers stand in token_flow.
use eth_project.Prelude.{
  ℕ, ◌≤◌, ◌≡◌, refl, sym, ap, ◌∙◌, String, str_eq, Bool, true, Option, some, List, [], ◌∷◌, ◌++◌,
  map, length, select, any_of, if◌then◌else◌, ◌==◌, arith,
}
use eth_project.Frame.{joins}
use eth_project.Frame.Joins.{left_join-rows, unique_matches, IsUnique}
use eth_project.Silver.Labels.{Label}
use eth_project.Silver.TokenFlow.{
  Transfer, TokenMeta, Block, TokenFlow, WithBlock, with_meta, inner_join, with_blocks, with_from,
  with_to, flow_row, build_token_flow,
}

abbrev pub is_listed : List TokenMeta → Transfer → Bool
is_listed metas t = any_of (λ m. str_eq t.token_address (TokenMeta.token_address m)) metas

one_match :
    (t : Transfer) (metas matches : List TokenMeta) (b : Bool) (rest : List (Transfer × TokenMeta))
    → length matches ≤ 1
    → any_of (λ m. true) matches ≡ b
    → map (λ p. p.0) (map (λ m. (t, m)) matches ++ rest)
      ≡ (if b then t ∷ map (λ p. p.0) rest else map (λ p. p.0) rest)
one_match t metas [] b rest h e = rw (sym e) refl
one_match t metas (m ∷ []) b rest h e = rw (sym e) refl
one_match t metas (m ∷ n ∷ ms) b rest h e = absurd (omega (arith, h))

any_of-select :
    (p : TokenMeta → Bool) (metas : List TokenMeta)
    → any_of (λ m. true) (select p metas) ≡ any_of p metas
any_of-select p [] = refl
any_of-select p (m ∷ ms) = ground (arith, any_of-select p ms)

inner_join-rows :
    (transfers : List Transfer) (metas : List TokenMeta)
    → IsUnique TokenMeta.token_address metas
    → map (λ p. p.0) (inner_join transfers metas) ≡ select (is_listed metas) transfers
unfolding inner_join with_meta joins
inner_join-rows [] metas unique = refl
inner_join-rows (t ∷ ts) metas unique =
    one_match t metas (select (λ m. str_eq t.token_address (TokenMeta.token_address m)) metas)
      (is_listed metas t) (inner_join ts metas)
      (unique_matches TokenMeta.token_address (some t.token_address) metas unique)
      (any_of-select (λ m. str_eq t.token_address (TokenMeta.token_address m)) metas)
    ∙ ap (λ l. if is_listed metas t then t ∷ l else l) (inner_join-rows ts metas unique)

module _ {Float : Type 0} (amount_of : String → ℕ → Float)
    (hour_of date_of : Option ℕ → Option ℕ) where
  hashes :
      (rows : List ((WithBlock × Option Label) × Option Label))
      → map TokenFlow.transaction_hash (map (flow_row amount_of hour_of date_of) rows)
        ≡ map Transfer.transaction_hash
            (map (λ p. p.0) (map (λ p. p.0) (map (λ p. p.0) (map (λ p. p.0) rows))))
  unfolding flow_row
  hashes [] = refl
  hashes (((((t, m), b), f), l) ∷ rows) = ap (λ x. t.transaction_hash ∷ x) (hashes rows)

  -- token_flow has one row for each transfer of a listed token and none for another, in order, where no token, block or address is listed twice.
  pub build_token_flow-rows :
      (transfers : List Transfer) (metas : List TokenMeta) (blocks : List Block)
      (labels : List Label)
      → IsUnique TokenMeta.token_address metas
      → ((n : ℕ) → length (select (λ b. n == Block.number b) blocks) ≤ 1)
      → IsUnique Label.address labels
      → map TokenFlow.transaction_hash
          (build_token_flow amount_of hour_of date_of transfers metas blocks labels)
        ≡ map Transfer.transaction_hash (select (is_listed metas) transfers)
  unfolding build_token_flow
  build_token_flow-rows transfers metas blocks labels one_token one_block one_label =
      let joined = inner_join transfers metas in
      let timed = with_blocks joined blocks in
      let sent = with_from timed labels in
      hashes (with_to sent labels)
      ∙ ap (map Transfer.transaction_hash) (
          ap (λ r. map (λ p. p.0) (map (λ p. p.0) (map (λ p. p.0) r)))
            (left_join-rows (λ w l. joins (Transfer.to_address (w.0.0.0)) (Label.address l)) sent
              labels
              (λ w. unique_matches Label.address (Transfer.to_address (w.0.0.0)) labels one_label))
          ∙ (ap (λ r. map (λ p. p.0) (map (λ p. p.0) r))
                (left_join-rows (λ w l. joins (Transfer.from_address (w.0.0)) (Label.address l))
                  timed labels
                  (λ w.
                    unique_matches Label.address (Transfer.from_address (w.0.0)) labels one_label))
              ∙ (ap (map (λ p. p.0)) (
                    left_join-rows (λ p b. Transfer.block_number (p.0) == Block.number b) joined
                      blocks (λ p. one_block (Transfer.block_number (p.0))))
                  ∙ inner_join-rows transfers metas one_token)))
