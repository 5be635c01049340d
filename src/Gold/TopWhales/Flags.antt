-- ===== src/Gold/TopWhales/Flags.antt =====
-- The flag of frequent senders, from the windows of whale_txns to the rows of top_whales_daily.
use eth_project.Prelude.{
  ℕ, ◌*◌, ◌≤◌, ◌≡◌, refl, ◌∙◌, ◌↔◌, List, [], ◌∷◌, arith, if◌then◌else◌, length,
}
use eth_project.Frame.{Address, IsReordering, same_key, sum_by}
use eth_project.Frame.Groups.{sum_by-of_key}
use eth_project.Frame.Orders.{length_sum}
use eth_project.Silver.Labels.{Label}
use eth_project.Silver.Whales.{
  Txn, WhaleTxn, Engine, Labelled, SentRow, ether, whale_rows, label_whales, over_from, final_row,
  build_whale_txns,
}
use eth_project.Silver.Whales.Windows.{
  one_of, amount_of, flag_of, flagged_rows, sum_by-over_from, sum_by-build_whale_txns,
}
use eth_project.Gold.TopWhales.{SentGroup, sent_by, sent_group, flag_int, max_by}

max_by_lem : (rows : List WhaleTxn) → (1 ≤ max_by flag_int rows) ↔ (1 ≤ sum_by flag_int rows)
unfolding max_by
max_by_lem [] = ground arith
max_by_lem (r ∷ rows) = ground (arith, max_by_lem rows)

module _ (engine : Engine) (threshold : ℕ) (labels : List Label) (txns : List Txn)
    (same : IsReordering engine.arrange_to) where
  abbrev rows : List WhaleTxn
  rows = build_whale_txns engine threshold labels txns

  abbrev arranged : List Labelled
  arranged = engine.arrange_from (label_whales (whale_rows threshold txns) labels)

  flags :
      (a : Address) → sum_by flag_int (sent_by a rows) ≡ sum_by (flag_of a) (over_from [] arranged)
  unfolding final_row
  flags a =
      sum_by-of_key flag_int WhaleTxn.from_address a rows
      ∙ sum_by-build_whale_txns engine threshold labels txns same
          (λ x. if same_key (WhaleTxn.from_address x) a then flag_int x else 0) (flag_of a)
          (λ received s. refl)

  counts : (a : Address) → length (sent_by a rows) ≡ sum_by (one_of a) arranged
  unfolding final_row
  counts a =
      length_sum (sent_by a rows)
      ∙ (sum_by-of_key (λ x. 1) WhaleTxn.from_address a rows
          ∙ (sum_by-build_whale_txns engine threshold labels txns same
                (λ x. if same_key (WhaleTxn.from_address x) a then 1 else 0)
                (λ s. one_of a (SentRow.row s)) (λ received s. refl)
              ∙ sum_by-over_from (one_of a) [] arranged))

  amounts :
      (a : Address) → sum_by WhaleTxn.value_eth (sent_by a rows) ≡ sum_by (amount_of a) arranged
  unfolding final_row
  amounts a =
      sum_by-of_key WhaleTxn.value_eth WhaleTxn.from_address a rows
      ∙ (sum_by-build_whale_txns engine threshold labels txns same
            (λ x. if same_key (WhaleTxn.from_address x) a then WhaleTxn.value_eth x else 0)
            (λ s. amount_of a (SentRow.row s)) (λ received s. refl)
          ∙ sum_by-over_from (amount_of a) [] arranged)

  -- If the second window presents each row once, in whatever order the two take the rows, then an address has its flag of the day just when it sent five rows and 500 ether in all.
  pub hf_sent_lem :
      (a : Address)
      → (1 ≤ SentGroup.hf_sent (sent_group rows a)) ↔ (
          (5 ≤ SentGroup.tx_count_as_sender (sent_group rows a))
          × (500 * ether ≤ SentGroup.total_sent_eth (sent_group rows a)))
  unfolding sent_group
  hf_sent_lem a =
      ground (
        arith,
        max_by_lem (sent_by a rows),
        flags a,
        counts a,
        amounts a,
        flagged_rows a [] arranged,
      )
