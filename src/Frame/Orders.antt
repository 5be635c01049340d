-- ===== src/Frame/Orders.antt =====
-- Sums and counts do not depend on the order in which the engine presents the rows.
use mathlib.Core.List.{Permᴰ}
use eth_project.Prelude.{
  ℕ, ◌≡◌, refl, sym, ap, ◌∙◌, Bool, List, [], ◌∷◌, arith, length, if◌then◌else◌, map, any_of,
}
use eth_project.Frame.{Address, same_key, sum_by, of_key}
use eth_project.Frame.Groups.{sum_by-of_key}

module _ {ℓ} {A : Type ℓ} where
  pub sum_by_reordered : (f : A → ℕ) {xs ys : List A} → Permᴰ xs ys → sum_by f xs ≡ sum_by f ys
  sum_by_reordered f Permᴰ.nil = refl
  sum_by_reordered f (Permᴰ.cons e p) = rw e (omega (arith, sum_by_reordered f p))
  sum_by_reordered f (Permᴰ.swap e1 e2) = rw (e1, e2) (omega arith)
  sum_by_reordered f (Permᴰ.trans p q) = sum_by_reordered f p ∙ sum_by_reordered f q

  pub length_sum : (xs : List A) → length xs ≡ sum_by (λ x. 1) xs
  length_sum [] = refl
  length_sum (x ∷ xs) = omega (arith, length_sum xs)

  -- A group's sum is the same in any order of the table.
  pub sum_by-of_key_reordered :
      (f : A → ℕ) (key : A → Address) (k : Address) {xs ys : List A}
      → Permᴰ xs ys
      → sum_by f (of_key key k xs) ≡ sum_by f (of_key key k ys)
  sum_by-of_key_reordered f key k {xs} {ys} p =
      sum_by-of_key f key k xs
      ∙ (sum_by_reordered (λ x. if same_key (key x) k then f x else 0) p
          ∙ sym (sum_by-of_key f key k ys))

pub map_reordered {ℓ κ} :
    {A : Type ℓ} {B : Type κ} (f : A → B) {xs ys : List A}
    → Permᴰ xs ys
    → Permᴰ (map f xs) (map f ys)
map_reordered f Permᴰ.nil = Permᴰ.nil
map_reordered f (Permᴰ.cons e p) = Permᴰ.cons (ap f e) (map_reordered f p)
map_reordered f (Permᴰ.swap e1 e2) = Permᴰ.swap (ap f e1) (ap f e2)
map_reordered f (Permᴰ.trans p q) = Permᴰ.trans (map_reordered f p) (map_reordered f q)

pub sum_by-map {ℓ κ} :
    {A : Type ℓ} {B : Type κ} (f : A → B) (g : B → ℕ) (xs : List A)
    → sum_by g (map f xs) ≡ sum_by (λ x. g (f x)) xs
sum_by-map f g [] = refl
sum_by-map f g (x ∷ xs) = omega (arith, sum_by-map f g xs)

pub any_of_reordered {ℓ} :
    {A : Type ℓ} (p : A → Bool) {xs ys : List A} → Permᴰ xs ys → any_of p xs ≡ any_of p ys
any_of_reordered p Permᴰ.nil = refl
any_of_reordered p (Permᴰ.cons e q) = ground (arith, ap p e, any_of_reordered p q)
any_of_reordered p (Permᴰ.swap e1 e2) = ground (arith, ap p e1, ap p e2)
any_of_reordered p (Permᴰ.trans q r) = any_of_reordered p q ∙ any_of_reordered p r
