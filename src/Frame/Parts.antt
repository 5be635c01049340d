-- ===== src/Frame/Parts.antt =====
-- Groups by several columns: the sums over the groups of a table add up to the sum over its rows.
use eth_project.Prelude.{
  ℕ, ◌+◌, ◌*◌, ◌≡◌, refl, Bool, true, false, List, [], ◌∷◌, inl, inr, Bool-cases, arith,
  if◌then◌else◌, All, All-map, any_of, select,
}
use eth_project.Frame.{sum_by, distinct_by}

module _ {ℓ} {A : Type ℓ} where
  -- A test that puts each row into one group.
  pub record IsGrouping (same : A → A → Bool) : Type ℓ where
    pub self : (x : A) → same x x ≡ true
    pub turned : (x y : A) → same x y ≡ true → same y x ≡ true
    pub linked : (x y z : A) → same x y ≡ true → same y z ≡ true → same x z ≡ true

  module _ (same : A → A → Bool) (group : IsGrouping same) where
    -- How many of the groups hold a row.
    abbrev groups_of : A → List A → ℕ
    groups_of x [] = 0
    groups_of x (k ∷ ks) = (if same k x then 1 else 0) + groups_of x ks

    any_of-linked :
        (x y : A) (ks : List A) (b : Bool)
        → same y x ≡ true
        → any_of (same y) ks ≡ b
        → any_of (same x) ks ≡ b
    any_of-linked x y [] b e h = h
    any_of-linked x y (k ∷ ks) b e h = ground (
      arith,
      group.linked x y k (group.turned y x e),
      group.linked y x k e,
      any_of-linked x y ks b e,
      any_of-linked x y ks true e,
      any_of-linked x y ks false e,
      Bool-cases (any_of (same y) ks),
    )

    groups_of_none : (x : A) (ks : List A) → any_of (same x) ks ≡ false → groups_of x ks ≡ 0
    groups_of_none x [] h = refl
    groups_of_none x (k ∷ ks) h = ground (arith, group.turned k x, groups_of_none x ks)

    any_of-distinct_by :
        (x : A) (xs : List A)
        → any_of (same x) xs ≡ true
        → any_of (same x) (distinct_by same xs) ≡ true
    any_of-distinct_by x [] h = h
    any_of-distinct_by x (y ∷ ys) h = elim (Bool-cases (any_of (same y) (distinct_by same ys))) [
      | inl m ↦ rw m (elim (Bool-cases (same x y)) [
        | inl e ↦ any_of-linked x y (distinct_by same ys) true (group.turned x y e) m
        | inr e ↦ any_of-distinct_by x ys (rw e at h)
      ])
      | inr m ↦ rw m (elim (Bool-cases (same x y)) [
        | inl e ↦ ground (arith, e)
        | inr e ↦ rw (e, any_of-distinct_by x ys (rw e at h)) refl
      ])
    ]

    any_of-distinct_by_back :
        (x : A) (xs : List A)
        → any_of (same x) (distinct_by same xs) ≡ true
        → any_of (same x) xs ≡ true
    any_of-distinct_by_back x [] h = h
    any_of-distinct_by_back x (y ∷ ys) h = ground (arith, any_of-distinct_by_back x ys)

    groups_of_once :
        (x : A) (xs : List A) → any_of (same x) xs ≡ true → groups_of x (distinct_by same xs) ≡ 1
    groups_of_once x [] h = ground (arith, h)
    groups_of_once x (y ∷ ys) h = elim (Bool-cases (any_of (same y) (distinct_by same ys))) [
      | inl m ↦ rw m (elim (Bool-cases (same x y)) [
        | inl e ↦
            groups_of_once x ys
              (any_of-linked x y ys true (group.turned x y e) (any_of-distinct_by_back y ys m))
        | inr e ↦ groups_of_once x ys (rw e at h)
      ])
      | inr m ↦ rw m (elim (Bool-cases (same x y)) [
        | inl e ↦ rw (group.turned x y e) (
            omega (
              arith,
              groups_of_none x (distinct_by same ys)
                  (any_of-linked x y (distinct_by same ys) false (group.turned x y e) m),
            ))
        | inr e ↦ ground (arith, group.turned y x, groups_of_once x ys (rw e at h))
      ])
    ]

    module _ (f : A → ℕ) where
      -- The sums over the groups that `ks` stands for.
      abbrev part_sums : List A → List A → ℕ
      part_sums xs ks = sum_by (λ k. sum_by f (select (same k) xs)) ks

      part_sums_nil : (ks : List A) → part_sums [] ks ≡ 0
      part_sums_nil [] = refl
      part_sums_nil (k ∷ ks) = omega (arith, part_sums_nil ks)

      part_sums-cons :
          (x : A) (xs : List A) (ks : List A)
          → part_sums (x ∷ xs) ks ≡ groups_of x ks * f x + part_sums xs ks
      part_sums-cons x xs [] = omega arith
      part_sums-cons x xs (k ∷ ks) = elim (Bool-cases (same k x)) [
        | inl h ↦ rw h (omega (arith, part_sums-cons x xs ks))
        | inr h ↦ rw h (omega (arith, part_sums-cons x xs ks))
      ]

      part_sums_lem :
          (xs ks : List A) → All (λ x. groups_of x ks ≡ 1) xs → part_sums xs ks ≡ sum_by f xs
      part_sums_lem [] ks h = part_sums_nil ks
      part_sums_lem (x ∷ xs) ks h =
          rw (part_sums-cons x xs ks, h.0) (omega (arith, part_sums_lem xs ks h.1))

      rows_present : (xs : List A) → All (λ x. any_of (same x) xs ≡ true) xs
      rows_present [] = tt
      rows_present (x ∷ xs) = (
        rw (group.self x) refl,
        All-map (λ y. any_of (same y) xs ≡ true) (λ y. any_of (same y) (x ∷ xs) ≡ true) xs
            (λ y h. ground (arith, h)) (rows_present xs),
      )

      -- The sums over the groups add up to the sum over the table.
      pub part_sums_total :
          (xs : List A)
          → sum_by (λ k. sum_by f (select (same k) xs)) (distinct_by same xs) ≡ sum_by f xs
      part_sums_total xs = part_sums_lem xs (distinct_by same xs) (
          All-map (λ x. any_of (same x) xs ≡ true) (λ x. groups_of x (distinct_by same xs) ≡ 1) xs
            (λ x h. groups_of_once x xs h) (rows_present xs))
