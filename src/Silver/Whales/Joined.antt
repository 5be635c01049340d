-- ===== src/Silver/Whales/Joined.antt =====
-- whale_txns holds each transaction that passes the filters once.
use mathlib.Core.List.{Permᴰ}
use eth_project.Prelude.{ℕ, ◌≡◌, refl, ap, ◌∙◌, Option, List, [], ◌∷◌, map}
use eth_project.Frame.{IsReordering, joins}
use eth_project.Frame.Joins.{left_join, left_join-rows, unique_matches, IsUnique}
use eth_project.Frame.Orders.{map_reordered}
use eth_project.Silver.Labels.{Label}
use eth_project.Silver.Whales.{
  Txn, Whale, Labelled, SentRow, WhaleTxn, Engine, whale_rows, label_whales, labelled_row,
  over_from, over_to, sent_row, final_row, build_whale_txns,
}

-- The transaction of a row.
abbrev pub whale_of : WhaleTxn → Whale
whale_of r = record {
  hash = r.hash;
  block_timestamp = r.block_timestamp;
  from_address = r.from_address;
  to_address = r.to_address;
  value_eth = r.value_eth;
}

map-labelled_row :
    (rows : List ((Whale × Option Label) × Option Label))
    → map Labelled.txn (map labelled_row rows) ≡ map (λ p. p.0) (map (λ p. p.0) rows)
unfolding labelled_row
map-labelled_row [] = refl
map-labelled_row (((w, f), t) ∷ rows) = ap (λ l. w ∷ l) (map-labelled_row rows)

-- With one label for each address at most, the two joins keep the rows and their order.
pub label_whales-rows :
    (whales : List Whale) (labels : List Label)
    → IsUnique Label.address labels
    → map Labelled.txn (label_whales whales labels) ≡ whales
unfolding label_whales
label_whales-rows whales labels unique =
    let first = left_join (λ w l. joins (Whale.from_address w) (Label.address l)) whales labels in
    let both = left_join (λ p l. joins (Whale.to_address (p.0)) (Label.address l)) first labels in
    map-labelled_row both
    ∙ (ap (map (λ p. p.0)) (
          left_join-rows (λ p l. joins (Whale.to_address (p.0)) (Label.address l)) first labels
            (λ p. unique_matches Label.address (Whale.to_address (p.0)) labels unique))
        ∙ left_join-rows (λ w l. joins (Whale.from_address w) (Label.address l)) whales labels
            (λ w. unique_matches Label.address (Whale.from_address w) labels unique))

map-over_from : (seen rows : List Labelled) → map SentRow.row (over_from seen rows) ≡ rows
unfolding over_from sent_row
map-over_from seen [] = refl
map-over_from seen (r ∷ rows) = ap (λ l. r ∷ l) (map-over_from (r ∷ seen) rows)

map-over_to :
    (engine : Engine) (seen rows : List SentRow)
    → map whale_of (over_to engine seen rows) ≡ map Labelled.txn (map SentRow.row rows)
unfolding over_to final_row
map-over_to engine seen [] = refl
map-over_to engine seen (s ∷ rows) = ap (λ l. s.row.txn ∷ l) (map-over_to engine (s ∷ seen) rows)

-- If the two windows present each row once and no address has two labels, then the rows of the table are, up to order, the transactions that pass the filters, each once.
pub build_whale_txns-rows :
    (engine : Engine) (threshold : ℕ) (labels : List Label) (txns : List Txn)
    → IsReordering engine.arrange_from
    → IsReordering engine.arrange_to
    → IsUnique Label.address labels
    → Permᴰ
        (map whale_of (build_whale_txns engine threshold labels txns))
        (whale_rows threshold txns)
unfolding build_whale_txns
build_whale_txns-rows engine threshold labels txns from_same to_same unique =
    let labelled = label_whales (whale_rows threshold txns) labels in
    let arranged = engine.arrange_from labelled in
    rw (map-over_to engine [] (engine.arrange_to (over_from [] arranged))) (
      Permᴰ.trans
        (map_reordered Labelled.txn (map_reordered SentRow.row (to_same (over_from [] arranged))))
        (rw (map-over_from [] arranged) (
          rw (label_whales-rows (whale_rows threshold txns) labels unique) at
            (map_reordered Labelled.txn (from_same labelled)))))
