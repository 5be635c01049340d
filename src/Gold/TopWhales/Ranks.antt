-- ===== src/Gold/TopWhales/Ranks.antt =====
-- The ranks of top_whales_daily.
use eth_project.Prelude.{
  ◌≤◌, ◌<◌, ◌≡◌, ◌↔◌, inl, inr, Bool, true, false, List, [], ◌∷◌, ◌++◌, arith, Bool-cases, length,
  select, ◌<ℤ◌,
}
use eth_project.Gold.TopWhales.{
  Joined, rank_by, more_net, less_net, more_active, net_flow_eth, total_activity_eth,
}

module _ {ℓ} {A : Type ℓ} where
  -- A filter that keeps more rows has as many at least.
  pub weaker :
      (p q : A → Bool) (xs : List A)
      → ((x : A) → p x ≡ true → q x ≡ true)
      → length (select p xs) ≤ length (select q xs)
  weaker p q [] h = omega arith
  weaker p q (x ∷ xs) h = elim (Bool-cases (p x)) [
    | inl e ↦ rw (e, h x e) (omega (arith, weaker p q xs h))
    | inr e ↦ rw e (ground (arith, weaker p q xs h))
  ]

  weaker_strictly :
      (p q : A → Bool) (xs : List A) (x : A) (ys : List A)
      → ((x : A) → p x ≡ true → q x ≡ true)
      → p x ≡ false
      → q x ≡ true
      → length (select p (xs ++ x ∷ ys)) < length (select q (xs ++ x ∷ ys))
  weaker_strictly p q [] x ys h out there = rw (out, there) (omega (arith, weaker p q ys h))
  weaker_strictly p q (z ∷ xs) x ys h out there = elim (Bool-cases (p z)) [
    | inl e ↦ rw (e, h z e) (omega (arith, weaker_strictly p q xs x ys h out there))
    | inr e ↦ rw e (ground (arith, weaker_strictly p q xs x ys h out there))
  ]

module _ (before : Joined → Joined → Bool) (irreflexive : (j : Joined) → before j j ≡ false)
    (through : (x j k : Joined) → before j k ≡ true → before x j ≡ true → before x k ≡ true)
    (back : (x j k : Joined) → before j k ≡ false → before x k ≡ true → before x j ≡ true) where
  rank_by_lem :
      (xs ys : List Joined) (j k : Joined)
      → (rank_by before (xs ++ j ∷ ys) j < rank_by before (xs ++ j ∷ ys) k) ↔ (before j k ≡ true)
  unfolding rank_by
  rank_by_lem xs ys j k = elim (Bool-cases (before j k)) [
    | inl e ↦ (
      λ l. e,
      λ l. omega (
        arith,
        weaker_strictly (λ x. before x j) (λ x. before x k) xs j ys (λ x. through x j k e)
            (irreflexive j) e,
      ),
    )
    | inr e ↦ (
      λ l. absurd (
          omega (
            arith,
            l,
            weaker (λ x. before x k) (λ x. before x j) (xs ++ j ∷ ys) (λ x. back x j k e),
          )),
      λ l. absurd (ground (arith, e, l)),
    )
  ]

-- Of two rows of a day, the first has the better rank just when it comes before the other in the rank's order: by a larger net flow, a smaller one, or more activity.
pub ranks_lem :
    (xs ys : List Joined) (j k : Joined)
    → ((rank_by more_net (xs ++ j ∷ ys) j < rank_by more_net (xs ++ j ∷ ys) k)
        ↔ (net_flow_eth k <ℤ net_flow_eth j))
      × ((rank_by less_net (xs ++ j ∷ ys) j < rank_by less_net (xs ++ j ∷ ys) k)
          ↔ (net_flow_eth j <ℤ net_flow_eth k))
      × ((rank_by more_active (xs ++ j ∷ ys) j < rank_by more_active (xs ++ j ∷ ys) k)
          ↔ (total_activity_eth k < total_activity_eth j))
ranks_lem xs ys j k = (
  ground (
    arith,
    rank_by_lem more_net (λ a. ground arith) (λ x a b h l. ground (arith, h, l))
        (λ x a b h l. ground (arith, h, l)) xs ys j k,
  ),
  ground (
    arith,
    rank_by_lem less_net (λ a. ground arith) (λ x a b h l. ground (arith, h, l))
        (λ x a b h l. ground (arith, h, l)) xs ys j k,
  ),
  ground (
    arith,
    rank_by_lem more_active (λ a. ground arith) (λ x a b h l. ground (arith, h, l))
        (λ x a b h l. ground (arith, h, l)) xs ys j k,
  ),
)
