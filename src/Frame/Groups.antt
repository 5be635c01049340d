-- ===== src/Frame/Groups.antt =====
-- Grouping loses no row: the sums of the groups add up to the sum of the table.
use eth_project.Prelude.{
  ℕ, ◌+◌, ◌*◌, ◌≡◌, refl, sym, ap, ◌∙◌, ◌↔◌, str_eq_iff, Bool, true, false, ◌||◌, none, some, List,
  [], ◌∷◌, map, inl, inr, Bool-cases, arith, if◌then◌else◌, All, All-map, All-map,
}
use eth_project.Frame.{Address, same_key, sum_by, of_key, has_key, distinct_keys}

pub same_key_iff : (a b : Address) → (same_key a b ≡ true) ↔ (a ≡ b)
unfolding same_key
same_key_iff none none = ground arith
same_key_iff none (some b) = ground arith
same_key_iff (some a) none = ground arith
same_key_iff (some a) (some b) = ground (arith, str_eq_iff a b)

pub same_key_refl : (a : Address) → same_key a a ≡ true
same_key_refl a = (same_key_iff a a).1 refl

-- How often a key stands in a list.
abbrev pub occurrences : Address → List Address → ℕ
occurrences k [] = 0
occurrences k (x ∷ xs) = (if same_key k x then 1 else 0) + occurrences k xs

occurrences_none : (k : Address) (ks : List Address) → has_key k ks ≡ false → occurrences k ks ≡ 0
occurrences_none k [] h = refl
occurrences_none k (x ∷ xs) h = ground (arith, occurrences_none k xs)

has_key_same :
    (j k : Address) (ks : List Address) (b : Bool)
    → same_key k j ≡ true
    → has_key j ks ≡ b
    → has_key k ks ≡ b
has_key_same j k ks b e h = rw ((same_key_iff k j).0 e) h

has_key-distinct_keys :
    (k : Address) (ks : List Address) → has_key k (distinct_keys ks) ≡ has_key k ks
unfolding distinct_keys
has_key-distinct_keys k [] = refl
has_key-distinct_keys k (x ∷ xs) = elim (Bool-cases (has_key x (distinct_keys xs))) [
  | inl h ↦ elim (Bool-cases (same_key k x)) [
    | inl e ↦ rw (h, e) (has_key_same x k (distinct_keys xs) true e h)
    | inr e ↦ rw (h, e) (has_key-distinct_keys k xs)
  ]
  | inr h ↦ rw h (ap (λ b. same_key k x || b) (has_key-distinct_keys k xs))
]

occurrences-distinct_keys :
    (k : Address) (ks : List Address) → has_key k ks ≡ true → occurrences k (distinct_keys ks) ≡ 1
unfolding distinct_keys
occurrences-distinct_keys k [] h = ground arith
occurrences-distinct_keys k (x ∷ xs) h = elim (Bool-cases (has_key x (distinct_keys xs))) [
  | inl m ↦ elim (Bool-cases (same_key k x)) [
    | inl e ↦ rw m (
        occurrences-distinct_keys k xs
          (sym (has_key-distinct_keys k xs) ∙ has_key_same x k (distinct_keys xs) true e m))
    | inr e ↦ rw m (occurrences-distinct_keys k xs (rw e at h))
  ]
  | inr m ↦ elim (Bool-cases (same_key k x)) [
    | inl e ↦
        rw (m, e)
          (omega (
            arith,
            occurrences_none k (distinct_keys xs) (has_key_same x k (distinct_keys xs) false e m),
          ))
    | inr e ↦ rw (m, e) (omega (arith, occurrences-distinct_keys k xs (rw e at h)))
  ]
]

module _ {ℓ} {A : Type ℓ} (f : A → ℕ) (key : A → Address) where
  -- A group's sum, as a sum over the table.
  pub sum_by-of_key :
      (k : Address) (xs : List A)
      → sum_by f (of_key key k xs) ≡ sum_by (λ x. if same_key (key x) k then f x else 0) xs
  sum_by-of_key k [] = refl
  sum_by-of_key k (x ∷ xs) = ground (arith, sum_by-of_key k xs)

  abbrev group_sums : List A → List Address → ℕ
  group_sums xs ks = sum_by (λ k. sum_by f (of_key key k xs)) ks

  group_sums-cons :
      (x : A) (xs : List A) (ks : List Address)
      → group_sums (x ∷ xs) ks ≡ occurrences (key x) ks * f x + group_sums xs ks
  group_sums-cons x xs [] = omega arith
  group_sums-cons x xs (k ∷ ks) = elim (Bool-cases (same_key (key x) k)) [
    | inl h ↦ rw h (omega (arith, group_sums-cons x xs ks))
    | inr h ↦ rw h (omega (arith, group_sums-cons x xs ks))
  ]

  sum_by_zero : (ks : List Address) → group_sums [] ks ≡ 0
  sum_by_zero [] = refl
  sum_by_zero (k ∷ ks) = omega (arith, sum_by_zero ks)

  group_sums_lem :
      (xs : List A) (ks : List Address)
      → All (λ x. occurrences (key x) ks ≡ 1) xs
      → group_sums xs ks ≡ sum_by f xs
  group_sums_lem [] ks h = sum_by_zero ks
  group_sums_lem (x ∷ xs) ks h =
      rw (group_sums-cons x xs ks, h.0) (omega (arith, group_sums_lem xs ks h.1))

  -- Every row's key stands once among the distinct keys of the table.
  keys_once :
      (all xs : List A)
      → All (λ x. has_key (key x) (map key all) ≡ true) xs
      → All (λ x. occurrences (key x) (distinct_keys (map key all)) ≡ 1) xs
  keys_once all [] h = tt
  keys_once all (x ∷ xs) h =
      (occurrences-distinct_keys (key x) (map key all) h.0, keys_once all xs h.1)

  keys_there : (xs : List A) → All (λ x. has_key (key x) (map key xs) ≡ true) xs
  keys_there [] = tt
  keys_there (x ∷ xs) = (
    rw (same_key_refl (key x)) refl,
    All-map (λ y. has_key (key y) (map key xs) ≡ true)
        (λ y. has_key (key y) (map key (x ∷ xs)) ≡ true) xs (λ y h. ground (arith, h))
        (keys_there xs),
  )

  -- The groups' sums add up to the table's.
  pub group_sums_total :
      (xs : List A)
      → sum_by (λ k. sum_by f (of_key key k xs)) (distinct_keys (map key xs)) ≡ sum_by f xs
  group_sums_total xs =
      group_sums_lem xs (distinct_keys (map key xs)) (keys_once xs xs (keys_there xs))
