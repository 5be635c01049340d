-- ===== src/Gold/Hourly/Totals.antt =====
-- Each transfer that the filter keeps counts for one token and hour.
use eth_project.Prelude.{
  ℕ, ◌≡◌, refl, sym, ap, ◌∙◌, ◌↔◌, String, str_eq_iff, Bool, true, Option, none, some, List, [],
  ◌∷◌, map, arith, select, length,
}
use eth_project.Frame.{sum_by, distinct_by, IsReordering}
use eth_project.Frame.Orders.{length_sum, sum_by_reordered}
use eth_project.Frame.Outer.{sum_by-append}
use eth_project.Frame.Parts.{IsGrouping, part_sums_total}
use eth_project.Silver.TokenFlow.{TokenFlow}
use eth_project.Silver.Checks.{resolves}
use eth_project.Gold.Popularity.{Floats}
use eth_project.Gold.Hourly.{
  HourlyBase, WithTrend, TokenPopularityHourly, hour_matches, same_hourly, same_token_address,
  with_lag, final_hourly, hourly_row, hourly_base, partitions, with_trend,
  build_token_popularity_hourly,
}

hour_matches_iff : (a b : Option ℕ) → (hour_matches a b ≡ true) ↔ (a ≡ b)
unfolding hour_matches
hour_matches_iff none none = ((λ h. refl), (λ h. refl))
hour_matches_iff none (some b) =
    ((λ h. absurd (ground (arith, h))), (λ h. absurd (ground (arith, h))))
hour_matches_iff (some a) none =
    ((λ h. absurd (ground (arith, h))), (λ h. absurd (ground (arith, h))))
hour_matches_iff (some a) (some b) = (
  (λ h. let same : a ≡ b = ground (arith, h) in ap some same),
  (λ h. let same : a ≡ b = ground (arith, h) in ground (arith, same)),
)

module _ {Float : Type 0} where
  same_hourly_iff :
      (r s : TokenFlow Float)
      → (same_hourly r s ≡ true)
        ↔ ((r.hour ≡ s.hour) × (r.token_address ≡ s.token_address) × (r.symbol ≡ s.symbol))
  unfolding same_hourly
  same_hourly_iff r s = ground (
    arith,
    hour_matches_iff r.hour s.hour,
    str_eq_iff r.token_address s.token_address,
    str_eq_iff r.symbol s.symbol,
  )

  same_hourly-IsGrouping : IsGrouping {A = TokenFlow Float} same_hourly
  same_hourly-IsGrouping = record {
    self = λ r. (same_hourly_iff r r).1 (refl, refl, refl);
    turned = λ r s h. (same_hourly_iff s r).1 (ground (arith, same_hourly_iff r s));
    linked = λ r s t h k.
        (same_hourly_iff r t).1 (ground (arith, same_hourly_iff r s, same_hourly_iff s t));
  }

  same_address_iff :
      (b c : HourlyBase Float)
      → (same_token_address b c ≡ true) ↔ (b.token_address ≡ c.token_address)
  unfolding same_token_address
  same_address_iff b c = str_eq_iff b.token_address c.token_address

  same_token_address-IsGrouping : IsGrouping {A = HourlyBase Float} same_token_address
  same_token_address-IsGrouping = record {
    self = λ b. (same_address_iff b b).1 refl;
    turned = λ b c h. (same_address_iff c b).1 (sym ((same_address_iff b c).0 h));
    linked = λ b c d h k.
        (same_address_iff b d).1 ((same_address_iff b c).0 h ∙ (same_address_iff c d).0 k);
  }

  abbrev count_of : WithTrend Float → ℕ
  count_of t = HourlyBase.tx_count (WithTrend.group t)

  with_lag-counts :
      (prev : Option ℕ) (bs : List (HourlyBase Float))
      → sum_by count_of (with_lag prev bs) ≡ sum_by HourlyBase.tx_count bs
  unfolding with_lag
  with_lag-counts prev [] = refl
  with_lag-counts prev (b ∷ bs) = omega (arith, with_lag-counts (some b.tx_count) bs)

  final_hourly-counts :
      (all ts : List (WithTrend Float))
      → sum_by TokenPopularityHourly.tx_count (map (final_hourly all) ts) ≡ sum_by count_of ts
  unfolding final_hourly
  final_hourly-counts all [] = refl
  final_hourly-counts all (t ∷ ts) = omega (arith, final_hourly-counts all ts)

  module _ (floats : Floats Float) where
    hourly_row-counts :
        (rows keys : List (TokenFlow Float))
        → sum_by HourlyBase.tx_count (map (hourly_row floats rows) keys)
          ≡ sum_by (λ k. sum_by (λ r. 1) (select (same_hourly k) rows)) keys
    unfolding hourly_row
    hourly_row-counts rows [] = refl
    hourly_row-counts rows (k ∷ keys) =
        omega (arith, length_sum (select (same_hourly k) rows), hourly_row-counts rows keys)

    hourly_base-counts :
        (rows : List (TokenFlow Float))
        → sum_by HourlyBase.tx_count (hourly_base floats rows) ≡ length rows
    unfolding hourly_base
    hourly_base-counts rows =
        hourly_row-counts rows (distinct_by same_hourly rows)
        ∙ (part_sums_total same_hourly same_hourly-IsGrouping (λ r. 1) rows ∙ sym (length_sum rows))

    module _ (by_hour : List (HourlyBase Float) → List (HourlyBase Float))
        (sorted : IsReordering by_hour) where
      partitions-counts :
          (rows keys : List (HourlyBase Float))
          → sum_by count_of (partitions floats by_hour rows keys)
            ≡ sum_by (λ k. sum_by HourlyBase.tx_count (select (same_token_address k) rows)) keys
      unfolding partitions
      partitions-counts rows [] = refl
      partitions-counts rows (k ∷ keys) =
          rw
            (sum_by-append count_of (with_lag none (by_hour (select (same_token_address k) rows)))
              (partitions floats by_hour rows keys))
            (omega (
              arith,
              with_lag-counts none (by_hour (select (same_token_address k) rows)),
              sum_by_reordered HourlyBase.tx_count (sorted (select (same_token_address k) rows)),
              partitions-counts rows keys,
            ))

      with_trend-counts :
          (rows : List (HourlyBase Float))
          → sum_by count_of (with_trend floats by_hour rows) ≡ sum_by HourlyBase.tx_count rows
      unfolding with_trend
      with_trend-counts rows =
          partitions-counts rows (distinct_by same_token_address rows)
          ∙ part_sums_total same_token_address same_token_address-IsGrouping HourlyBase.tx_count
              rows

      -- Where the schema has the column `status`, the hourly table is built, and the transactions it
      -- counts for its tokens and hours add up to the rows that the filter keeps; if Spark sorts the
      -- partitions of its window.
      pub hourly_counts_lem :
          (schema : List String) (has_status_1 : TokenFlow Float → Bool)
          (rows : List (TokenFlow Float))
          → resolves schema ("status" ∷ []) ≡ true
          → (out : List (TokenPopularityHourly Float)) × (build_token_popularity_hourly floats
                by_hour schema has_status_1 rows
              ≡ some out)
            × (sum_by TokenPopularityHourly.tx_count out ≡ length (select has_status_1 rows))
      unfolding build_token_popularity_hourly
      hourly_counts_lem schema has_status_1 rows h =
          let base = hourly_base floats (select has_status_1 rows) in
          let trends = with_trend floats by_hour base in
          (
            map (final_hourly trends) trends,
            rw h refl,
            final_hourly-counts trends trends
                ∙ (with_trend-counts base ∙ hourly_base-counts (select has_status_1 rows)),
          )
