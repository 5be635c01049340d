-- ===== src/Silver/Whales/Windows.antt =====
-- The windows of whale_txns: what their last rows hold.
use eth_project.Prelude.{
  ℕ, ◌+◌, ◌*◌, ◌≤◌, ◌≡◌, refl, sym, ◌∙◌, ◌↔◌, Bool, true, false, ◌&&◌, List, [], ◌∷◌, inl, inr,
  Bool-cases, arith, if◌then◌else◌, length, leb,
}
use eth_project.Silver.Labels.{Label}
use eth_project.Frame.{Address, IsReordering, same_key, sum_by, of_key}
use eth_project.Frame.Groups.{same_key_iff, same_key_refl, sum_by-of_key}
use eth_project.Frame.Orders.{length_sum, sum_by_reordered}
use eth_project.Silver.Whales.{
  Labelled, SentRow, WhaleTxn, Engine, ether, amount, sender, sent_row, over_from, over_to,
  final_row, flag_high_freq, Txn, whale_rows, label_whales, build_whale_txns, receiver, sent_amount,
}

-- What one row adds to the count and to the sum of an address, and whether its flag counts for it.
abbrev pub one_of : Address → Labelled → ℕ
one_of a r = if same_key (sender r) a then 1 else 0

abbrev pub amount_of : Address → Labelled → ℕ
amount_of a r = if same_key (sender r) a then amount r else 0

abbrev pub flag_of : Address → SentRow → ℕ
flag_of a s = if same_key (sender s.row) a then if flag_high_freq s then 1 else 0 else 0

count_group :
    (a : Address) (rs : List Labelled) → length (of_key sender a rs) ≡ sum_by (one_of a) rs
count_group a rs = length_sum (of_key sender a rs) ∙ sum_by-of_key (λ r. 1) sender a rs

sum_group :
    (a : Address) (rs : List Labelled)
    → sum_by amount (of_key sender a rs) ≡ sum_by (amount_of a) rs
sum_group a rs = sum_by-of_key amount sender a rs

count_upto :
    (seen : List Labelled) (r : Labelled)
    → length (of_key sender (sender r) (r ∷ seen)) ≡ 1 + sum_by (one_of (sender r)) seen
count_upto seen r = ground (arith, count_group (sender r) (r ∷ seen), same_key_refl (sender r))

sum_upto :
    (seen : List Labelled) (r : Labelled)
    → sum_by amount (of_key sender (sender r) (r ∷ seen))
      ≡ amount r + sum_by (amount_of (sender r)) seen
sum_upto seen r = ground (arith, sum_group (sender r) (r ∷ seen), same_key_refl (sender r))

-- The flag of a row, from the sums up to it.
flag_high_freq-sent_row :
    (a : Address) (seen : List Labelled) (r : Labelled)
    → same_key (sender r) a ≡ true
    → flag_high_freq (sent_row seen r) ≡ (
        leb 5 (1 + sum_by (one_of a) seen)
        && leb (500 * ether) (amount r + sum_by (amount_of a) seen))
unfolding flag_high_freq sent_row
flag_high_freq-sent_row a seen r e =
    rw (sym ((same_key_iff (sender r) a).0 e), count_upto seen r, sum_upto seen r) refl

-- What one row adds to the flags of an address.
unfoldable busy : ℕ → ℕ → Bool
busy count sum = leb 5 count && leb (500 * ether) sum

flag_of-own :
    (a : Address) (seen : List Labelled) (r : Labelled)
    → same_key (sender r) a ≡ true
    → flag_of a (sent_row seen r)
      ≡ (if busy (1 + sum_by (one_of a) seen) (amount r + sum_by (amount_of a) seen) then 1 else 0)
unfolding sent_row busy
flag_of-own a seen r e = rw (e, flag_high_freq-sent_row a seen r e) refl

flag_of-other :
    (a : Address) (seen : List Labelled) (r : Labelled)
    → same_key (sender r) a ≡ false
    → flag_of a (sent_row seen r) ≡ 0
unfolding sent_row
flag_of-other a seen r e = rw e refl

nothing_sent :
    (a : Address) (rows : List Labelled)
    → sum_by (one_of a) rows ≡ 0
    → sum_by (amount_of a) rows ≡ 0
nothing_sent a [] h = refl
nothing_sent a (r ∷ rows) h = elim (Bool-cases (same_key (sender r) a)) [
  | inl e ↦ absurd (ground (arith, h, e))
  | inr e ↦ ground (arith, h, e, nothing_sent a rows)
]

-- The totals reach the limits with the last row, if they do with an earlier one.
busy_later :
    (count sum value later_count later_sum flags : ℕ)
    → (later_count ≡ 0 → later_sum ≡ 0)
    → ((1 ≤ flags) ↔ (
        (1 ≤ later_count)
        × (5 ≤ (1 + count) + later_count)
        × (500 * ether ≤ (value + sum) + later_sum)))
    → (1 ≤ (if busy (1 + count) (value + sum) then 1 else 0) + flags) ↔ (
        (1 ≤ 1 + later_count)
        × (5 ≤ count + (1 + later_count))
        × (500 * ether ≤ sum + (value + later_sum)))
unfolding busy
busy_later count sum value later_count later_sum flags nothing h = ground (arith, nothing, h)

unchanged :
    (count sum later_count later_sum flags : ℕ)
    → ((1 ≤ flags) ↔ (
        (1 ≤ later_count)
        × (5 ≤ (0 + count) + later_count)
        × (500 * ether ≤ (0 + sum) + later_sum)))
    → (1 ≤ 0 + flags) ↔ (
        (1 ≤ 0 + later_count)
        × (5 ≤ count + (0 + later_count))
        × (500 * ether ≤ sum + (0 + later_sum)))
unchanged count sum later_count later_sum flags h = ground (arith, h)

-- Some row of an address is flagged just when the address sends at all and its totals reach both limits.
pub flagged_rows :
    (a : Address) (seen rows : List Labelled)
    → (1 ≤ sum_by (flag_of a) (over_from seen rows)) ↔ (
        (1 ≤ sum_by (one_of a) rows)
        × (5 ≤ sum_by (one_of a) seen + sum_by (one_of a) rows)
        × (500 * ether ≤ sum_by (amount_of a) seen + sum_by (amount_of a) rows))
unfolding over_from
flagged_rows a seen [] = ground arith
flagged_rows a seen (r ∷ rows) = elim (Bool-cases (same_key (sender r) a)) [
  | inl e ↦
      rw (flag_of-own a seen r e, e)
        (busy_later (sum_by (one_of a) seen) (sum_by (amount_of a) seen) (amount r)
          (sum_by (one_of a) rows) (sum_by (amount_of a) rows)
          (sum_by (flag_of a) (over_from (r ∷ seen) rows)) (nothing_sent a rows)
          (rw e at (flagged_rows a (r ∷ seen) rows)))
  | inr e ↦
      rw (flag_of-other a seen r e, e)
        (unchanged (sum_by (one_of a) seen) (sum_by (amount_of a) seen) (sum_by (one_of a) rows)
          (sum_by (amount_of a) rows) (sum_by (flag_of a) (over_from (r ∷ seen) rows))
          (rw e at (flagged_rows a (r ∷ seen) rows)))
]

-- The window adds columns to the rows, and changes nothing else.
pub sum_by-over_from :
    (f : Labelled → ℕ) (seen rows : List Labelled)
    → sum_by (λ s. f (SentRow.row s)) (over_from seen rows) ≡ sum_by f rows
unfolding over_from sent_row
sum_by-over_from f seen [] = refl
sum_by-over_from f seen (r ∷ rows) = omega (arith, sum_by-over_from f (r ∷ seen) rows)

pub sum_by-over_to :
    (engine : Engine) (f : WhaleTxn → ℕ) (g : SentRow → ℕ)
    → ((received : ℕ) (s : SentRow) → f (final_row engine received s) ≡ g s)
    → (seen rows : List SentRow) → sum_by f (over_to engine seen rows) ≡ sum_by g rows
unfolding over_to
sum_by-over_to engine f g h seen [] = refl
sum_by-over_to engine f g h seen (s ∷ rows) = omega (
  arith,
  h (sum_by sent_amount (of_key receiver (receiver s) (s ∷ seen))) s,
  sum_by-over_to engine f g h (s ∷ seen) rows,
)

-- A sum over the whole table, as one over the rows that the first window makes.
pub sum_by-build_whale_txns :
    (engine : Engine) (threshold : ℕ) (labels : List Label) (txns : List Txn)
    → IsReordering engine.arrange_to
    → (f : WhaleTxn → ℕ) (g : SentRow → ℕ)
    → ((received : ℕ) (s : SentRow) → f (final_row engine received s) ≡ g s)
    → sum_by f (build_whale_txns engine threshold labels txns)
      ≡ sum_by g
          (over_from [] (engine.arrange_from (label_whales (whale_rows threshold txns) labels)))
unfolding build_whale_txns
sum_by-build_whale_txns engine threshold labels txns same f g h =
    let rows =
      over_from [] (engine.arrange_from (label_whales (whale_rows threshold txns) labels)) in
    sum_by-over_to engine f g h [] (engine.arrange_to rows) ∙ sum_by_reordered g (same rows)
