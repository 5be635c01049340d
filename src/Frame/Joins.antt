-- ===== src/Frame/Joins.antt =====
-- Left joins, and when they keep each row of the left table once.
use eth_project.Prelude.{
  ◌≤◌, ◌≡◌, refl, ap, ◌∙◌, String, str_eq, str_eq_iff, Bool, true, false, Option, none, some, List,
  [], ◌∷◌, ◌++◌, map, inl, inr, Bool-cases, any_of, arith, length, select, select_none, not,
}
use eth_project.Frame.{Address, joins, or_alone}

module _ {ℓ κ} {A : Type ℓ} {B : Type κ} where
  -- `left.join(right, …, how="left")`: each row of the left table with each of its matches.
  unfoldable pub left_join : (A → B → Bool) → List A → List B → List (A × Option B)
  left_join on [] ys = []
  left_join on (x ∷ xs) ys = or_alone x (select (on x) ys) ++ left_join on xs ys

  -- The rows of the right table that no row of the left one matches.
  unfoldable pub right_alone : (A → B → Bool) → List A → List B → List B
  right_alone on xs ys = select (λ y. not (any_of (λ x. on x y) xs)) ys

  unfoldable pub outer_join : (A → B → Bool) → List A → List B → List (Option A × Option B)
  outer_join on xs ys =
      map (λ p. (some (p.0), p.1)) (left_join on xs ys)
      ++ map (λ y. (none, some y)) (right_alone on xs ys)

  or_alone_left :
      (x : A) (ys : List B) (rest : List (A × Option B))
      → length ys ≤ 1
      → map (λ p. p.0) (or_alone x ys ++ rest) ≡ x ∷ map (λ p. p.0) rest
  unfolding or_alone
  or_alone_left x [] rest h = refl
  or_alone_left x (y ∷ []) rest h = refl
  or_alone_left x (y ∷ z ∷ ys) rest h = absurd (omega (arith, h))

  -- With at most one match for each row, a left join keeps the rows and their order.
  pub left_join-rows :
      (on : A → B → Bool) (xs : List A) (ys : List B)
      → ((x : A) → length (select (on x) ys) ≤ 1)
      → map (λ p. p.0) (left_join on xs ys) ≡ xs
  unfolding left_join
  left_join-rows on [] ys h = refl
  left_join-rows on (x ∷ xs) ys h =
      or_alone_left x (select (on x) ys) (left_join on xs ys) (h x)
      ∙ ap (λ l. x ∷ l) (left_join-rows on xs ys h)

module _ {κ} {B : Type κ} (name : B → String) where
  -- No two rows of the table have the same name.
  abbrev pub IsUnique : List B → Type 0
  IsUnique [] = Unit
  IsUnique (y ∷ ys) = (any_of (λ z. str_eq (name y) (name z)) ys ≡ false) × IsUnique ys

  unmatched :
      (a : Address) (y : B) (ys : List B)
      → joins a (name y) ≡ true
      → any_of (λ z. str_eq (name y) (name z)) ys ≡ false
      → select (λ z. joins a (name z)) ys ≡ []
  unfolding joins
  unmatched none y ys j h = ground (arith, j)
  unmatched (some a) y ys j h =
      rw ((str_eq_iff a (name y)).0 j) (select_none (λ z. str_eq (name y) (name z)) ys h)

  pub unique_matches :
      (a : Address) (ys : List B) → IsUnique ys → length (select (λ z. joins a (name z)) ys) ≤ 1
  unique_matches a [] h = omega arith
  unique_matches a (y ∷ ys) h = elim (Bool-cases (joins a (name y))) [
    | inl j ↦ rw (j, unmatched a y ys j h.0) (omega arith)
    | inr j ↦ rw j (unique_matches a ys h.1)
  ]
