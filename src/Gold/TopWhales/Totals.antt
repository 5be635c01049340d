-- ===== src/Gold/TopWhales/Totals.antt =====
-- What a day's rows of top_whales_daily add up to.
use eth_project.Prelude.{ℕ, ◌≡◌, refl, ◌∙◌, List, map}
use eth_project.Frame.{zero_if_null, sum_by, distinct_keys}
use eth_project.Frame.Groups.{group_sums_total}
use eth_project.Frame.Orders.{sum_by-map}
use eth_project.Frame.Outer.{outer_join_left, outer_join_right}
use eth_project.Frame.Distinct.{matches_once, keys-IsSingle, distinct_keys-IsDistinct}
use eth_project.Frame.Joins.{outer_join}
use eth_project.Silver.Whales.{WhaleTxn}
use eth_project.Gold.Entities.{Arrange}
use eth_project.Gold.TopWhales.{
  SentGroup, RecvGroup, Joined, TopWhale, sent_group, recv_group, sent_groups, recv_groups,
  same_address, fill_zeros, joined, top_whale, build_top_whales_daily,
}

sum_by-joined_sent :
    (f : SentGroup → ℕ) (rows : List WhaleTxn)
    → sum_by
        (λ p. zero_if_null f (p.0))
        (outer_join same_address (sent_groups rows) (recv_groups rows))
      ≡ sum_by (λ a. f (sent_group rows a)) (distinct_keys (map WhaleTxn.from_address rows))
unfolding sent_groups recv_groups recv_group
sum_by-joined_sent f rows =
    outer_join_left same_address f (sent_groups rows) (recv_groups rows) (λ s.
      matches_once RecvGroup.address (recv_group rows) (λ k. refl) s.address
        (distinct_keys (map WhaleTxn.to_address rows))
        (distinct_keys-IsDistinct (map WhaleTxn.to_address rows)))
    ∙ sum_by-map (sent_group rows) f (distinct_keys (map WhaleTxn.from_address rows))

sum_by-joined_recv :
    (g : RecvGroup → ℕ) (rows : List WhaleTxn)
    → sum_by
        (λ p. zero_if_null g (p.1))
        (outer_join same_address (sent_groups rows) (recv_groups rows))
      ≡ sum_by (λ a. g (recv_group rows a)) (distinct_keys (map WhaleTxn.to_address rows))
unfolding sent_groups recv_groups sent_group
sum_by-joined_recv g rows =
    outer_join_right same_address g (sent_groups rows) (recv_groups rows) (
      keys-IsSingle SentGroup.address (sent_group rows) RecvGroup.address (λ k. refl)
        (distinct_keys (map WhaleTxn.from_address rows))
        (distinct_keys-IsDistinct (map WhaleTxn.from_address rows)))
    ∙ sum_by-map (recv_group rows) g (distinct_keys (map WhaleTxn.to_address rows))

-- The amounts sent by all addresses of a day add up to the value of its rows, and so do the amounts received.
pub totals_lem :
    (arrange : Arrange) (rows : List WhaleTxn)
    → (sum_by TopWhale.total_sent_eth (build_top_whales_daily arrange rows)
        ≡ sum_by WhaleTxn.value_eth rows)
      × (sum_by TopWhale.total_recv_eth (build_top_whales_daily arrange rows)
          ≡ sum_by WhaleTxn.value_eth rows)
unfolding build_top_whales_daily top_whale joined fill_zeros sent_group recv_group
totals_lem arrange rows = (
  sum_by-map (top_whale arrange rows (joined rows)) TopWhale.total_sent_eth (joined rows)
      ∙ (sum_by-map fill_zeros Joined.total_sent_eth
            (outer_join same_address (sent_groups rows) (recv_groups rows))
          ∙ (sum_by-joined_sent SentGroup.total_sent_eth rows
              ∙ group_sums_total WhaleTxn.value_eth WhaleTxn.from_address rows)),
  sum_by-map (top_whale arrange rows (joined rows)) TopWhale.total_recv_eth (joined rows)
      ∙ (sum_by-map fill_zeros Joined.total_recv_eth
            (outer_join same_address (sent_groups rows) (recv_groups rows))
          ∙ (sum_by-joined_recv RecvGroup.total_recv_eth rows
              ∙ group_sums_total WhaleTxn.value_eth WhaleTxn.to_address rows)),
)
