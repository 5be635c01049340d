-- ===== src/Prelude/Lists.antt =====
-- Lists measured by native numbers, predicates on every member, and filters by a Boolean test.
use Prim.Native.Nat.{ℕ, suc, ◌+◌, ◌≤◌}
use mathlib.Core.Path.{◌≡◌, refl}
use mathlib.Core.Bool.{Bool, true, false, ◌||◌}
use mathlib.Core.List.{List, [], ◌∷◌, ◌++◌}
use native.Mathlib.Omega.{arith}
use eth_project.Prelude.Tests.{if◌then◌else◌}

module _ {ℓ} {A : Type ℓ} where
  abbrev pub length : List A → ℕ
  length [] = 0
  length (x ∷ xs) = suc (length xs)

  pub length-append : (xs ys : List A) → length (xs ++ ys) ≡ length xs + length ys
  length-append [] ys = omega arith
  length-append (x ∷ xs) ys = omega (arith, length-append xs ys)

  -- Python's truth value of a list.
  abbrev pub non_empty : List A → Bool
  non_empty [] = false
  non_empty (x ∷ xs) = true

  abbrev pub select : (A → Bool) → List A → List A
  select p [] = []
  select p (x ∷ xs) = let rest = select p xs in if p x then x ∷ rest else rest

  pub length-select-le : (p : A → Bool) (xs : List A) → length (select p xs) ≤ length xs
  length-select-le p [] = omega arith
  length-select-le p (x ∷ xs) = ground (arith, length-select-le p xs)

  abbrev pub any_of : (A → Bool) → List A → Bool
  any_of p [] = false
  any_of p (x ∷ xs) = p x || any_of p xs

  pub select_none : (p : A → Bool) (xs : List A) → any_of p xs ≡ false → select p xs ≡ []
  select_none p [] h = refl
  select_none p (x ∷ xs) h = ground (arith, select_none p xs, h)

  pub select-append :
      (p : A → Bool) (xs ys : List A) → select p (xs ++ ys) ≡ select p xs ++ select p ys
  select-append p [] ys = refl
  select-append p (x ∷ xs) ys = ground (arith, select-append p xs ys)

  pub any_of-append :
      (p : A → Bool) (xs ys : List A) → any_of p (xs ++ ys) ≡ (any_of p xs || any_of p ys)
  any_of-append p [] ys = refl
  any_of-append p (x ∷ xs) ys = ground (arith, any_of-append p xs ys)

  -- Every member satisfies `P`.
  abbrev pub All {κ} : (A → Type κ) → List A → Type κ
  All P [] = Unit
  All P (x ∷ xs) = P x × All P xs

  pub All-append {κ} : (P : A → Type κ) (xs ys : List A) → All P xs → All P ys → All P (xs ++ ys)
  All-append P [] ys hx hy = hy
  All-append P (x ∷ xs) ys hx hy = (hx.0, All-append P xs ys hx.1 hy)

  pub All-map {κ μ} :
      (P : A → Type κ) (Q : A → Type μ) (xs : List A) → ((x : A) → P x → Q x) → All P xs → All Q xs
  All-map P Q [] f h = tt
  All-map P Q (x ∷ xs) f h = (f x h.0, All-map P Q xs f h.1)
