-- ===== src/Backend/Trending/Totals.antt =====
-- The transfers that are counted for the trending tokens.
use eth_project.Prelude.{
  ℕ, ◌≤◌, ◌≡◌, refl, sym, ap, ◌∙◌, ◌↔◌, str_eq_iff, String, true, Option, none, some, List, [], ◌∷◌,
  map, length, select, arith, zero, suc,
}
use eth_project.Frame.{sum_by, distinct_by, IsReordering}
use eth_project.Frame.Parts.{IsGrouping, part_sums_total}
use eth_project.Frame.Orders.{length_sum, sum_by_reordered}
use eth_project.Backend.Tokens.{TokenInfo, TransferRow}
use eth_project.Backend.WhaleList.{take_rows}
use eth_project.Backend.Trending.{
  TrendingToken, TokenTransfer, same_text, same_token_group, trending_token, trending_groups,
  join_tokens, transfers_since, trending_query,
}

same_text_iff : (a b : Option String) → (same_text a b ≡ true) ↔ (a ≡ b)
unfolding same_text
same_text_iff none none = ((λ h. refl), (λ h. refl))
same_text_iff none (some b) = ((λ h. absurd (ground (arith, h))), (λ h. absurd (ground (arith, h))))
same_text_iff (some a) none = ((λ h. absurd (ground (arith, h))), (λ h. absurd (ground (arith, h))))
same_text_iff (some a) (some b) =
    ((λ h. ap some ((str_eq_iff a b).0 h)), (λ h. (str_eq_iff a b).1 (ground (arith, h))))

same_token_group_iff :
    (x y : TokenTransfer)
    → (same_token_group x y ≡ true) ↔ (
        (TokenInfo.address x.1 ≡ TokenInfo.address y.1)
        × (TokenInfo.symbol x.1 ≡ TokenInfo.symbol y.1)
        × (TokenInfo.name x.1 ≡ TokenInfo.name y.1))
unfolding same_token_group
same_token_group_iff (r, t) (s, u) = ground (
  arith,
  str_eq_iff t.address u.address,
  same_text_iff t.symbol u.symbol,
  same_text_iff t.name u.name,
)

same_token_group-IsGrouping : IsGrouping same_token_group
same_token_group-IsGrouping = record {
  self = λ x. (same_token_group_iff x x).1 (refl, refl, refl);
  turned = λ x y h. (same_token_group_iff y x).1 (ground (arith, same_token_group_iff x y));
  linked = λ x y z h k.
      (same_token_group_iff x z).1
        (ground (arith, same_token_group_iff x y, same_token_group_iff y z));
}

group_counts :
    (rows keys : List TokenTransfer)
    → sum_by TrendingToken.transfer_count (map (trending_token rows) keys)
      ≡ sum_by (λ k. sum_by (λ r. 1) (select (same_token_group k) rows)) keys
unfolding trending_token
group_counts rows [] = refl
group_counts rows ((r, t) ∷ keys) =
    omega (arith, length_sum (select (same_token_group (r, t)) rows), group_counts rows keys)

trending_groups-total :
    (rows : List TokenTransfer)
    → sum_by TrendingToken.transfer_count (trending_groups rows) ≡ length rows
unfolding trending_groups
trending_groups-total rows =
    group_counts rows (distinct_by same_token_group rows)
    ∙ (part_sums_total same_token_group same_token_group-IsGrouping (λ r. 1) rows
        ∙ sym (length_sum rows))

sum_by-take_rows {ℓ} :
    {A : Type ℓ} (f : A → ℕ) (n : ℕ) (xs : List A) → sum_by f (take_rows n xs) ≤ sum_by f xs
unfolding take_rows
sum_by-take_rows f n [] = omega arith
sum_by-take_rows f zero (x ∷ xs) = omega arith
sum_by-take_rows f (suc n) (x ∷ xs) = omega (arith, sum_by-take_rows f n xs)

-- The transfers that the trending tokens count are at most the ones of the last hours, joined to their
-- tokens, if PostgreSQL sorts the tokens.
pub trending_query_lem :
    (by_count : List TrendingToken → List TrendingToken) (now hours limit : ℕ)
    (rows : List TransferRow) (tokens : List TokenInfo)
    → IsReordering by_count
    → sum_by TrendingToken.transfer_count (trending_query by_count now hours limit rows tokens)
      ≤ length (join_tokens (transfers_since now hours rows) tokens)
unfolding trending_query
trending_query_lem by_count now hours limit rows tokens p =
    let joined = join_tokens (transfers_since now hours rows) tokens in
    omega (
      arith,
      sum_by-take_rows TrendingToken.transfer_count limit (by_count (trending_groups joined)),
      sum_by_reordered TrendingToken.transfer_count (p (trending_groups joined)),
      trending_groups-total joined,
    )
