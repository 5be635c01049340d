-- ===== src/Gold/MarketFlow/Labelled.antt =====
-- What the pressure label of an hour says of its two amounts.
use native.Mathlib.Nat.{mul-le-mul_right}
use eth_project.Prelude.{
  ℕ, ◌+◌, ◌*◌, ◌≤◌, ◌<◌, ◌≡◌, ◌⊎◌, inl, inr, some, ltb, ◌==◌, arith, Bool-cases, lt→ltb,
}
use eth_project.Gold.MarketFlow.{
  Pressure, strong_sell, mild_sell, neutral_pressure, mild_buy, strong_buy, pressure_of_ratio,
  pressure_label, ratio_of,
}

module _ (divide : ℕ → ℕ → ℕ) where
  -- What is asked of the division: an error of less than one unit in the last place.
  abbrev pub IsAccurate : Type 0
  IsAccurate =
      (d w : ℕ) → 0 < w → (divide d w * w < d * 10000 + w) × (d * 10000 < divide d w * w + w)

  -- What a label says of the two amounts.
  abbrev pub Says : ℕ → ℕ → Pressure → Type 0
  Says d w strong_sell = w < d
  Says d w mild_sell = w < d
  Says d w neutral_pressure = (w ≡ d) ⊎ ((w * 10000 < d * 10000 + w) × (d * 10000 < w * 10000 + w))
  Says d w mild_buy = d < w
  Says d w strong_buy = d < w

  more : (d w ratio : ℕ) → 10001 ≤ ratio → ratio * w < d * 10000 + w → w < d
  more d w ratio h above = omega (arith, mul-le-mul_right w h, above)

  less : (d w ratio : ℕ) → ratio ≤ 9999 → d * 10000 < ratio * w + w → d < w
  less d w ratio h below = omega (arith, mul-le-mul_right w h, below)

  even :
      (d w ratio : ℕ)
      → ratio ≡ 10000
      → ratio * w < d * 10000 + w
      → d * 10000 < ratio * w + w
      → (w * 10000 < d * 10000 + w) × (d * 10000 < w * 10000 + w)
  even d w ratio e above below = (omega (arith, rw e at above), omega (arith, rw e at below))

  Says-pressure_of_ratio :
      (d w ratio : ℕ)
      → ratio * w < d * 10000 + w
      → d * 10000 < ratio * w + w
      → Says d w (pressure_of_ratio (some ratio))
  unfolding pressure_of_ratio
  Says-pressure_of_ratio d w ratio above below = elim (Bool-cases (ltb 15000 ratio)) [
    | inl e ↦ rw e (more d w ratio (ground (arith, e)) above)
    | inr e ↦ rw e (elim (Bool-cases (ltb 10000 ratio)) [
      | inl e1 ↦ rw e1 (more d w ratio (ground (arith, e1)) above)
      | inr e1 ↦ rw e1 (elim (Bool-cases (ltb ratio 6700)) [
        | inl e2 ↦ rw e2 (less d w ratio (ground (arith, e2)) below)
        | inr e2 ↦ rw e2 (elim (Bool-cases (ltb ratio 10000)) [
          | inl e3 ↦ rw e3 (less d w ratio (ground (arith, e3)) below)
          | inr e3 ↦ rw e3 (inr (even d w ratio (ground (arith, e1, e3)) above below))
        ])
      ])
    ])
  ]

  -- If the division errs by less than one unit in its last place, then a label of selling pressure is given only where more is deposited than withdrawn, one of buying pressure only where less is, and a neutral one only where the two differ by less than a ten-thousandth of the withdrawals or are equal.
  pub pressure_label_lem :
      (d w : ℕ) → IsAccurate → Says d w (pressure_label d w (ratio_of divide d w))
  unfolding pressure_label ratio_of
  pressure_label_lem d w accurate = elim (Bool-cases (w == 0)) [
    | inl e ↦ elim (Bool-cases (d == 0)) [
      | inl e1 ↦ rw (e, e1) (inl (ground (arith, e, e1)))
      | inr e1 ↦ rw (e, e1, lt→ltb 0 d (ground (arith, e1))) (ground (arith, e, e1))
    ]
    | inr e ↦ elim (Bool-cases (d == 0)) [
      | inl e1 ↦ rw (e, e1, lt→ltb 0 w (ground (arith, e))) (ground (arith, e, e1))
      | inr e1 ↦
          rw (e, e1)
            (Says-pressure_of_ratio d w (divide d w) (accurate d w (ground (arith, e))).0
              (accurate d w (ground (arith, e))).1)
    ]
  ]
