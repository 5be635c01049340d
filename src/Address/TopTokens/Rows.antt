-- ===== src/Address/TopTokens/Rows.antt =====
-- Distinct addresses and ranks in a table of tokens.
use mathlib.Core.List.{Permᴰ}
use mathlib.Core.Path.{subst}
use eth_project.Prelude.{
  ℕ, ◌+◌, ◌≡◌, refl, sym, ap, ◌∙◌, String, str_eq, str_eq_iff, Bool, false, ◌||◌, List, [], ◌∷◌,
  ◌++◌, map, any_of, any_of-append, arith, Bool-cases, length,
}
use eth_project.Frame.Joins.{IsUnique}
use eth_project.Frame.Orders.{any_of_reordered, length_sum, sum_by_reordered}
use eth_project.Address.TopTokens.{Row, renumber}

str_eq_sym : (a b : String) → str_eq a b ≡ str_eq b a
str_eq_sym a b =
    ground (arith, str_eq_iff a b, str_eq_iff b a, Bool-cases (str_eq a b), Bool-cases (str_eq b a))

abbrev pub has : String → List Row → Bool
has a rows = any_of (λ r. str_eq a (Row.address r)) rows

pub IsUnique-append :
    (rows : List Row) (r : Row)
    → IsUnique Row.address rows
    → has r.address rows ≡ false
    → IsUnique Row.address (rows ++ r ∷ [])
IsUnique-append [] r u h = (refl, tt)
IsUnique-append (x ∷ rows) r u h = (
  any_of-append (λ z. str_eq x.address (Row.address z)) rows (r ∷ [])
      ∙ ground (arith, u.0, h, str_eq_sym x.address r.address),
  IsUnique-append rows r u.1 (ground (arith, h)),
)

swapped :
    (a b : Row) (l : List Row) → IsUnique Row.address (a ∷ b ∷ l) → IsUnique Row.address (b ∷ a ∷ l)
swapped a b l u = ground (arith, str_eq_sym a.address b.address)

renamed :
    {a b a' b' : Row}
    → a ≡ b'
    → b ≡ a'
    → (l : List Row) → IsUnique Row.address (a ∷ b ∷ l)
    → IsUnique Row.address (a' ∷ b' ∷ l)
renamed {a} {b} {a'} {b'} e1 e2 l u =
    subst (λ x. IsUnique Row.address (x ∷ b' ∷ l)) e2
      (subst (λ y. IsUnique Row.address (b ∷ y ∷ l)) e1 (swapped a b l u))

pub IsUnique-reordered :
    {xs ys : List Row} → Permᴰ xs ys → IsUnique Row.address xs → IsUnique Row.address ys
IsUnique-reordered Permᴰ.nil u = u
IsUnique-reordered (Permᴰ.cons e p) u =
    rw (← e) (sym (any_of_reordered _ p) ∙ u.0, IsUnique-reordered p u.1)
IsUnique-reordered (Permᴰ.swap e1 e2) u = renamed e1 e2 _ u
IsUnique-reordered (Permᴰ.trans p q) u = IsUnique-reordered q (IsUnique-reordered p u)

renumber-has : (a : String) (n : ℕ) (rows : List Row) → has a (renumber n rows) ≡ has a rows
unfolding renumber
renumber-has a n [] = refl
renumber-has a n (r ∷ rows) = ap (λ b. str_eq a r.address || b) (renumber-has a (n + 1) rows)

pub renumber-IsUnique :
    (n : ℕ) (rows : List Row) → IsUnique Row.address rows → IsUnique Row.address (renumber n rows)
unfolding renumber
renumber-IsUnique n [] u = tt
renumber-IsUnique n (r ∷ rows) u =
    (renumber-has r.address (n + 1) rows ∙ u.0, renumber-IsUnique (n + 1) rows u.1)

pub length-renumber : (n : ℕ) (rows : List Row) → length (renumber n rows) ≡ length rows
unfolding renumber
length-renumber n [] = refl
length-renumber n (r ∷ rows) = omega (arith, length-renumber (n + 1) rows)

-- n + 1, n + 2, ..., one number for each row.
abbrev pub numbers_from : ℕ → List Row → List ℕ
numbers_from n [] = []
numbers_from n (r ∷ rows) = (n + 1) ∷ numbers_from (n + 1) rows

pub ranks-renumber :
    (n : ℕ) (rows : List Row) → map Row.rank (renumber n rows) ≡ numbers_from n (renumber n rows)
unfolding renumber
ranks-renumber n [] = refl
ranks-renumber n (r ∷ rows) = ap (λ l. (n + 1) ∷ l) (ranks-renumber (n + 1) rows)

pub length_reordered : {xs ys : List Row} → Permᴰ xs ys → length xs ≡ length ys
length_reordered {xs} {ys} p = length_sum xs ∙ (sum_by_reordered (λ x. 1) p ∙ sym (length_sum ys))
