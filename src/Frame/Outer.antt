-- ===== src/Frame/Outer.antt =====
-- An outer join loses no row of either table.
use eth_project.Prelude.{
  ℕ, ◌+◌, ◌≤◌, ◌≡◌, refl, sym, ◌∙◌, Bool, true, false, not, Option, none, some, List, [], ◌∷◌, ◌++◌,
  map, any_of, arith, if◌then◌else◌, length, select,
}
use eth_project.Frame.{or_alone, zero_if_null, sum_by}
use eth_project.Frame.Joins.{left_join, left_join-rows, right_alone, outer_join}
use eth_project.Frame.Orders.{sum_by-map}

module _ {ℓ} {A : Type ℓ} where
  pub sum_by-append : (f : A → ℕ) (xs ys : List A) → sum_by f (xs ++ ys) ≡ sum_by f xs + sum_by f ys
  sum_by-append f [] ys = omega arith
  sum_by-append f (x ∷ xs) ys = omega (arith, sum_by-append f xs ys)

  pub sum_by-select :
      (f : A → ℕ) (p : A → Bool) (xs : List A)
      → sum_by f (select p xs) ≡ sum_by (λ x. if p x then f x else 0) xs
  sum_by-select f p [] = refl
  sum_by-select f p (x ∷ xs) = ground (arith, sum_by-select f p xs)

  sum_by-add :
      (f g h : A → ℕ) (xs : List A)
      → ((x : A) → f x + g x ≡ h x)
      → sum_by f xs + sum_by g xs ≡ sum_by h xs
  sum_by-add f g h [] e = omega arith
  sum_by-add f g h (x ∷ xs) e = omega (arith, e x, sum_by-add f g h xs e)

  sum_by_zero : (xs : List A) → sum_by (λ x. 0) xs ≡ 0
  sum_by_zero [] = refl
  sum_by_zero (x ∷ xs) = omega (arith, sum_by_zero xs)

module _ {ℓ κ} {A : Type ℓ} {B : Type κ} (on : A → B → Bool) where
  -- No row of the right table matches two of the left one.
  abbrev pub IsSingle : List A → Type κ
  IsSingle [] = Unit
  IsSingle (x ∷ xs) = ((y : B) → on x y ≡ true → any_of (λ z. on z y) xs ≡ false) × IsSingle xs

  matched :
      (g : B → ℕ) (x : A) (ys : List B)
      → sum_by (λ p. zero_if_null g (p.1)) (or_alone x ys) ≡ sum_by g ys
  unfolding or_alone
  matched g x [] = omega arith
  matched g x (y ∷ ys) =
      sum_by-map {B = A × Option B} (λ z. (x, some z)) (λ p. zero_if_null g (p.1)) (y ∷ ys)

  joined_rows :
      (g : B → ℕ) (xs : List A) (ys : List B)
      → IsSingle xs
      → sum_by (λ p. zero_if_null g (p.1)) (left_join on xs ys)
        ≡ sum_by (λ y. if any_of (λ x. on x y) xs then g y else 0) ys
  unfolding left_join
  joined_rows g [] ys h = sym (sum_by_zero ys)
  joined_rows g (x ∷ xs) ys h =
      sum_by-append (λ p. zero_if_null g (p.1)) (or_alone x (select (on x) ys)) (left_join on xs ys)
      ∙ (rw (matched g x (select (on x) ys), sum_by-select g (on x) ys, joined_rows g xs ys h.1)
          (sum_by-add (λ y. if on x y then g y else 0)
            (λ y. if any_of (λ z. on z y) xs then g y else 0)
            (λ y. if any_of (λ z. on z y) (x ∷ xs) then g y else 0) ys
            (λ y. ground (arith, h.0 y))))

  abbrev left_row : A × Option B → Option A × Option B
  left_row p = (some (p.0), p.1)

  abbrev right_row : B → Option A × Option B
  right_row y = (none, some y)

  pub outer_join_right :
      (g : B → ℕ) (xs : List A) (ys : List B)
      → IsSingle xs
      → sum_by (λ p. zero_if_null g (p.1)) (outer_join on xs ys) ≡ sum_by g ys
  unfolding outer_join right_alone
  outer_join_right g xs ys h =
      sum_by-append (λ p. zero_if_null g (p.1)) (map left_row (left_join on xs ys))
        (map right_row (right_alone on xs ys))
      ∙ (rw
          (
            sum_by-map left_row (λ p. zero_if_null g (p.1)) (left_join on xs ys),
            joined_rows g xs ys h,
            sum_by-map right_row (λ p. zero_if_null g (p.1)) (right_alone on xs ys),
            sum_by-select g (λ y. not (any_of (λ x. on x y) xs)) ys,
          )
          (sum_by-add (λ y. if any_of (λ x. on x y) xs then g y else 0)
            (λ y. if not (any_of (λ x. on x y) xs) then g y else 0) g ys (λ y. ground arith)))

  pub outer_join_left :
      (f : A → ℕ) (xs : List A) (ys : List B)
      → ((x : A) → length (select (on x) ys) ≤ 1)
      → sum_by (λ p. zero_if_null f (p.0)) (outer_join on xs ys) ≡ sum_by f xs
  unfolding outer_join right_alone
  outer_join_left f xs ys h =
      sum_by-append (λ p. zero_if_null f (p.0)) (map left_row (left_join on xs ys))
        (map right_row (right_alone on xs ys))
      ∙ (rw
          (
            sum_by-map left_row (λ p. zero_if_null f (p.0)) (left_join on xs ys),
            sum_by-map right_row (λ p. zero_if_null f (p.0)) (right_alone on xs ys),
            sum_by_zero (right_alone on xs ys),
            sym (sum_by-map (λ p. p.0) f (left_join on xs ys)),
            left_join-rows on xs ys h,
          )
          (omega arith))
