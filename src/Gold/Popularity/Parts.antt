-- ===== src/Gold/Popularity/Parts.antt =====
-- Each transfer of the day counts for one token.
use eth_project.Prelude.{
  ◌≡◌, refl, sym, ◌∙◌, ◌↔◌, str_eq_iff, true, List, [], ◌∷◌, map, arith, select, length,
}
use eth_project.Frame.{sum_by, distinct_by}
use eth_project.Frame.Orders.{length_sum}
use eth_project.Frame.Parts.{IsGrouping, part_sums_total}
use eth_project.Silver.TokenFlow.{TokenFlow}
use eth_project.Gold.Popularity.{
  Floats, TokenPopularity, same_token, base_row, base, final_token, build_token_popularity_daily,
}

module _ {Float : Type 0} where
  same_token_iff :
      (r s : TokenFlow Float)
      → (same_token r s ≡ true) ↔ (
          (r.token_address ≡ s.token_address)
          × (r.symbol ≡ s.symbol)
          × (r.token_name ≡ s.token_name))
  unfolding same_token
  same_token_iff r s = ground (
    arith,
    str_eq_iff r.token_address s.token_address,
    str_eq_iff r.symbol s.symbol,
    str_eq_iff r.token_name s.token_name,
  )

  pub same_token-IsGrouping : IsGrouping {A = TokenFlow Float} same_token
  same_token-IsGrouping = record {
    self = λ r. (same_token_iff r r).1 (refl, refl, refl);
    turned = λ r s h. (same_token_iff s r).1 (ground (arith, same_token_iff r s));
    linked = λ r s t h k.
        (same_token_iff r t).1 (ground (arith, same_token_iff r s, same_token_iff s t));
  }

  module _ (floats : Floats Float) where
    counts :
        (rows keys : List (TokenFlow Float))
        → sum_by TokenPopularity.tx_count
            (map (final_token floats (base floats rows)) (map (base_row floats rows) keys))
          ≡ sum_by (λ k. sum_by (λ r. 1) (select (same_token k) rows)) keys
    unfolding final_token base_row
    counts rows [] = refl
    counts rows (k ∷ keys) =
        omega (arith, length_sum (select (same_token k) rows), counts rows keys)

    -- The transactions that token_popularity_daily counts for its tokens add up to the rows of
    -- token_flow.
    pub tx_counts_lem :
        (rows : List (TokenFlow Float))
        → sum_by TokenPopularity.tx_count (build_token_popularity_daily floats rows) ≡ length rows
    unfolding build_token_popularity_daily base
    tx_counts_lem rows =
        unfold base in
        counts rows (distinct_by same_token rows)
        ∙ (part_sums_total same_token same_token-IsGrouping (λ r. 1) rows ∙ sym (length_sum rows))
