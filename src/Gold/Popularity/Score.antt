-- ===== src/Gold/Popularity/Score.antt =====
-- The scores of token_popularity_daily and the ranks that they make.
use native.Mathlib.Nat.{le-div_iff_mul-le, div-mul-le_self, mul-le-mul_right}
use eth_project.Prelude.{
  ℕ, suc, ◌+◌, ◌*◌, ◌/◌, ◌≤◌, ◌<◌, List, [], ◌∷◌, ◌++◌, arith, map, Option, none, some, true, ◌≡◌,
  refl, leb, inl, inr, Bool-cases,
}
use eth_project.Gold.TopWhales.Ranks.{weaker}
use eth_project.Gold.Popularity.{
  Base, PopularityTier, top1, top3, top10, hot, normal, popularity_tier, min_of, max_of, denom,
  above_min, round_quotient, Floats, weighted_score, ranks_above, popularity_score, rank_popularity,
}

div_mono : (x y k : ℕ) → 0 < k → x ≤ y → x / k ≤ y / k
div_mono x y k h l = (le-div_iff_mul-le h).1 (omega (arith, div-mul-le_self x k))

round_mono : (m n d : ℕ) → 0 < d → m ≤ n → round_quotient m d ≤ round_quotient n d
round_mono m n d h l = div_mono (2 * m + d) (2 * n + d) (2 * d) (omega arith) (omega arith)

-- A quotient of at most the whole number `k` rounds to at most `k`.
round_bound : (n d k : ℕ) → 0 < d → n ≤ k * d → round_quotient n d ≤ k
round_bound n d k h l = elim (Bool-cases (leb (suc k) (round_quotient n d))) [
  | inl e ↦ absurd (
      grind (
        arith,
        l,
        (le-div_iff_mul-le {k = 2 * d} {x = suc k} {y = 2 * n + d} (omega arith)).0
            (ground (arith, e)),
      ))
  | inr e ↦ ground (arith, e)
]

weighted_mono :
    (a a' c c' d e v w z : ℕ)
    → a ≤ a'
    → c ≤ c'
    → 5500 * (a * e) + 4500 * (c * d) + 0 * (v * z)
      ≤ 5500 * (a' * e) + 4500 * (c' * d) + 0 * (w * z)
weighted_mono a a' c c' d e v w z h k = omega (arith, mul-le-mul_right e h, mul-le-mul_right d k)

product_pos : (x y z : ℕ) → 0 < x → 0 < y → 0 < z → 0 < x * (y * z)
product_pos x y z h k l = grind arith

weighted_bound :
    (a c d e k v z : ℕ)
    → a ≤ d
    → c ≤ e
    → 5500 * (a * (e * k)) + 4500 * (c * (d * k)) + 0 * (v * z) ≤ 10000 * (d * (e * k))
weighted_bound a c d e k v z h l =
    omega (arith, mul-le-mul_right (e * k) h, mul-le-mul_right (d * k) l, swapped e d k)
  where
    swapped : (x y u : ℕ) → x * (y * u) ≡ y * (x * u)
    swapped x y u = grind arith

module _ {Float : Type 0} where
  min_le :
      (f : Base Float → ℕ) (xs : List (Base Float)) (b : Base Float) (ys : List (Base Float))
      → min_of f (xs ++ b ∷ ys) ≤ f b
  min_le f [] b [] = omega arith
  min_le f [] b (y ∷ ys) = ground arith
  min_le f (x ∷ []) b ys = ground (arith, min_le f [] b ys)
  min_le f (x ∷ z ∷ xs) b ys = ground (arith, min_le f (z ∷ xs) b ys)

  le_max :
      (f : Base Float → ℕ) (xs : List (Base Float)) (b : Base Float) (ys : List (Base Float))
      → f b ≤ max_of f (xs ++ b ∷ ys)
  le_max f [] b ys = ground arith
  le_max f (x ∷ xs) b ys = ground (arith, le_max f xs b ys)

  denom_pos : (f : Base Float → ℕ) (all : List (Base Float)) → 0 < denom f all
  unfolding denom
  denom_pos f all = ground arith

  above_min_le :
      (f : Base Float → ℕ) (xs : List (Base Float)) (b : Base Float) (ys : List (Base Float))
      → above_min f (xs ++ b ∷ ys) b ≤ denom f (xs ++ b ∷ ys)
  unfolding above_min denom
  above_min_le f xs b ys = ground (arith, min_le f xs b ys, le_max f xs b ys)

  module _ (all : List (Base Float)) where
    above_mono :
        (f : Base Float → ℕ) (b c : Base Float) → f b ≤ f c → above_min f all b ≤ above_min f all c
    unfolding above_min
    above_mono f b c h = omega (arith, h)

    score_mono :
        (b c : Base Float) (v w range : ℕ)
        → 0 < range
        → b.tx_count ≤ c.tx_count
        → b.unique_addresses ≤ c.unique_addresses
        → weighted_score all b v range ≤ weighted_score all c w range
    unfolding weighted_score
    score_mono b c v w range r t a =
        round_mono _ _ (denom Base.tx_count all * (denom Base.unique_addresses all * range))
          (product_pos _ _ range (denom_pos Base.tx_count all) (denom_pos Base.unique_addresses all)
            r)
          (weighted_mono _ _ _ _ (denom Base.tx_count all * range)
            (denom Base.unique_addresses all * range) v w _ (above_mono Base.tx_count b c t)
            (above_mono Base.unique_addresses b c a))

  score_bound :
      (xs : List (Base Float)) (b : Base Float) (ys : List (Base Float)) (v range : ℕ)
      → 0 < range
      → weighted_score (xs ++ b ∷ ys) b v range ≤ 10000
  unfolding weighted_score
  score_bound xs b ys v range r =
      round_bound _
        (denom Base.tx_count (xs ++ b ∷ ys) * (denom Base.unique_addresses (xs ++ b ∷ ys) * range))
        10000
        (product_pos _ _ range (denom_pos Base.tx_count (xs ++ b ∷ ys))
          (denom_pos Base.unique_addresses (xs ++ b ∷ ys)) r)
        (weighted_bound _ _ _ _ range v _ (above_min_le Base.tx_count xs b ys)
          (above_min_le Base.unique_addresses xs b ys))

-- A score that is null or at most a number.
abbrev pub IsAtMost : Option ℕ → ℕ → Type 0
IsAtMost none n = Unit
IsAtMost (some x) n = x ≤ n

above_weaker :
    (s u : Option ℕ) (n : ℕ) → IsAtMost s n → ranks_above u (some n) ≡ true → ranks_above u s ≡ true
unfolding ranks_above
above_weaker none none n h e = absurd (ground (arith, e))
above_weaker none (some y) n h e = refl
above_weaker (some x) none n h e = absurd (ground (arith, e))
above_weaker (some x) (some y) n h e = ground (arith, e, h)

module _ {Float : Type 0} (floats : Floats Float) where
  score_some :
      (all : List (Base Float)) (c : Base Float) (w : ℕ)
      → floats.volume_above_min (map Base.total_volume all) c.total_volume ≡ some w
      → popularity_score floats all c
        ≡ some (weighted_score all c w (floats.volume_denom (map Base.total_volume all)))
  unfolding popularity_score weighted_score
  score_some all c w h = rw (popularity_score, h) refl

  score-IsAtMost :
      (all : List (Base Float)) (b c : Base Float) (w : ℕ)
      → 0 < floats.volume_denom (map Base.total_volume all)
      → b.tx_count ≤ c.tx_count
      → b.unique_addresses ≤ c.unique_addresses
      → IsAtMost
          (popularity_score floats all b)
          (weighted_score all c w (floats.volume_denom (map Base.total_volume all)))
  unfolding popularity_score
  score-IsAtMost all b c w r t a =
      normed (floats.volume_above_min (map Base.total_volume all) b.total_volume)
    where
      range : ℕ
      range = floats.volume_denom (map Base.total_volume all)

      normed :
          (o : Option ℕ)
          → IsAtMost
              (elim o [ none ↦ none | some v ↦ some (weighted_score all b v range) ])
              (weighted_score all c w range)
      normed none = tt
      normed (some v) = score_mono all b c v w range r t a

  rank_anti :
      (all : List (Base Float)) (b c : Base Float) (n : ℕ)
      → popularity_score floats all c ≡ some n
      → IsAtMost (popularity_score floats all b) n
      → rank_popularity floats all c ≤ rank_popularity floats all b
  unfolding rank_popularity
  rank_anti all b c n e h = rw e (
      omega (
        arith,
        weaker (λ x. ranks_above (popularity_score floats all x) (some n))
            (λ x. ranks_above (popularity_score floats all x) (popularity_score floats all b)) all
            (λ x k.
              above_weaker (popularity_score floats all b) (popularity_score floats all x) n h k),
      ))

  rank_pos : (all : List (Base Float)) (b : Base Float) → 1 ≤ rank_popularity floats all b
  unfolding rank_popularity
  rank_pos all b = omega arith

-- The place of a tier, the best first.
abbrev pub tier_place : PopularityTier → ℕ
tier_place top1 = 1
tier_place top3 = 2
tier_place top10 = 3
tier_place hot = 4
tier_place normal = 5

tier_mono :
    (m n : ℕ) → 1 ≤ m → m ≤ n → tier_place (popularity_tier m) ≤ tier_place (popularity_tier n)
unfolding popularity_tier
tier_mono m n p h = ground arith

-- A token of the day whose volume is not null has a score, of at most 1. Another token of the day with at
-- most its transactions and distinct addresses, whatever its volume, has a score that is null or at most
-- as high, at least its rank, and no higher tier; as the divisor of the normed volumes is not 0.
pub popularity_lem :
    {Float : Type 0} (floats : Floats Float) (xs ys : List (Base Float)) (b c : Base Float) (w : ℕ)
    → floats.volume_above_min (map Base.total_volume (xs ++ c ∷ ys)) c.total_volume ≡ some w
    → 0 < floats.volume_denom (map Base.total_volume (xs ++ c ∷ ys))
    → b.tx_count ≤ c.tx_count
    → b.unique_addresses ≤ c.unique_addresses
    → (n : ℕ) × (popularity_score floats (xs ++ c ∷ ys) c ≡ some n)
      × (n ≤ 10000)
      × IsAtMost (popularity_score floats (xs ++ c ∷ ys) b) n
      × (rank_popularity floats (xs ++ c ∷ ys) c ≤ rank_popularity floats (xs ++ c ∷ ys) b)
      × (tier_place (popularity_tier (rank_popularity floats (xs ++ c ∷ ys) c))
          ≤ tier_place (popularity_tier (rank_popularity floats (xs ++ c ∷ ys) b)))
popularity_lem floats xs ys b c w v r t a =
    let all = xs ++ c ∷ ys in
    let range = floats.volume_denom (map Base.total_volume all) in
    let score = score_some floats all c w v in
    let most = score-IsAtMost floats all b c w r t a in
    let better = rank_anti floats all b c (weighted_score all c w range) score most in
    (
      weighted_score all c w range,
      score,
      score_bound xs c ys w range r,
      most,
      better,
      tier_mono _ _ (rank_pos floats all c) better,
    )
