-- ===== src/Frame/Distinct.antt =====
-- The distinct keys of a table join with each key at most once.
use eth_project.Prelude.{
  ◌≤◌, ◌≡◌, refl, sym, ap, str_eq_iff, true, false, none, some, List, [], ◌∷◌, map, inl, inr,
  Bool-cases, any_of, arith, length, select, select_none,
}
use eth_project.Frame.{Address, same_key, joins, joins_key, has_key, distinct_keys}
use eth_project.Frame.Groups.{same_key_iff}
use eth_project.Frame.Outer.{IsSingle}

abbrev pub IsDistinct : List Address → Type 0
IsDistinct [] = Unit
IsDistinct (k ∷ ks) = (has_key k ks ≡ false) × IsDistinct ks

pub distinct_keys-IsDistinct : (ks : List Address) → IsDistinct (distinct_keys ks)
unfolding distinct_keys
distinct_keys-IsDistinct [] = tt
distinct_keys-IsDistinct (k ∷ ks) = elim (Bool-cases (has_key k (distinct_keys ks))) [
  | inl e ↦ rw e (distinct_keys-IsDistinct ks)
  | inr e ↦ rw e (e, distinct_keys-IsDistinct ks)
]

joins_same : (a b : Address) → joins_key a b ≡ true → a ≡ b
unfolding joins_key joins
joins_same none none h = ground (arith, h)
joins_same none (some b) h = ground (arith, h)
joins_same (some a) none h = ground (arith, h)
joins_same (some a) (some b) h = ap some ((str_eq_iff a b).0 h)

apart : (j k : Address) → same_key j k ≡ false → joins_key j k ≡ false
apart j k h = elim (Bool-cases (joins_key j k)) [
  | inl e ↦ absurd (ground (arith, h, same_key_iff j k, joins_same j k e))
  | inr e ↦ e
]

apart_sym : (j k : Address) → same_key k j ≡ false → joins_key j k ≡ false
apart_sym j k h = elim (Bool-cases (joins_key j k)) [
  | inl e ↦ absurd (ground (arith, h, (same_key_iff k j).1 (sym (joins_same j k e))))
  | inr e ↦ e
]

module _ {ℓ} {A : Type ℓ} (address : A → Address) (row : Address → A)
    (own : (k : Address) → address (row k) ≡ k) where
  none_right :
      (k : Address) (ks : List Address)
      → has_key k ks ≡ false
      → any_of (λ y. joins_key k (address y)) (map row ks) ≡ false
  none_right k [] h = refl
  none_right k (j ∷ ks) h = elim (Bool-cases (same_key k j)) [
    | inl e ↦ absurd (ground (arith, rw e at h))
    | inr e ↦ rw (own j, apart k j e) (none_right k ks (rw e at h))
  ]

  pub matches_once :
      (k : Address) (ks : List Address)
      → IsDistinct ks
      → length (select (λ y. joins_key k (address y)) (map row ks)) ≤ 1
  matches_once k [] h = omega arith
  matches_once k (j ∷ ks) h = elim (Bool-cases (joins_key k j)) [
    | inl e ↦
        rw
          (
            own j,
            e,
            select_none (λ y. joins_key k (address y)) (map row ks)
                (none_right k ks (rw (sym (joins_same k j e)) at (h.0))),
          )
          (omega arith)
    | inr e ↦ rw (own j, e) (matches_once k ks h.1)
  ]

module _ {ℓ κ} {A : Type ℓ} {B : Type κ} (address : A → Address) (row : Address → A)
    (other : B → Address) (own : (k : Address) → address (row k) ≡ k) where
  none_left :
      (k : Address) (ks : List Address)
      → has_key k ks ≡ false
      → any_of (λ x. joins_key (address x) k) (map row ks) ≡ false
  none_left k [] h = refl
  none_left k (j ∷ ks) h = elim (Bool-cases (same_key k j)) [
    | inl e ↦ absurd (ground (arith, rw e at h))
    | inr e ↦ rw (own j, apart_sym j k e) (none_left k ks (rw e at h))
  ]

  pub keys-IsSingle :
      (ks : List Address)
      → IsDistinct ks
      → IsSingle (λ x y. joins_key (address x) (other y)) (map row ks)
  keys-IsSingle [] h = tt
  keys-IsSingle (k ∷ ks) h = (
    λ y e. rw (sym (joins_same k (other y) (rw (own k) at e))) (none_left k ks h.0),
    keys-IsSingle ks h.1,
  )
