-- ===== src/Address/TopTokens/Unique.antt =====
-- What the table of tokens holds.
use mathlib.Core.List.Permᴰ.{symm}
use eth_project.Prelude.{
  ℕ, zero, suc, ◌+◌, ◌-◌, ◌≤◌, ◌≡◌, refl, sym, ◌∙◌, String, str_eq, Bool, Option, none, some, List,
  [], ◌∷◌, map, any_of, any_of-append, ltb, leb, arith, inl, inr, Bool-cases, Option-cases, length,
  length-append, non_empty, if◌then◌else◌,
}
use eth_project.Frame.{IsReordering}
use eth_project.Frame.Joins.{IsUnique}
use eth_project.Address.Retry.{Fetched, fetched, gave_up, fetch_with_retry}
use eth_project.Address.TopTokens.{
  Platform, Coin, Row, Found, Requests, target_count, max_pages, address_of, token_row,
  mandatory_tokens, add_mandatory, add_unseen, add_ranked, ranked_tokens, with_page, pages,
  nothing_found, count_rows, after_mandatory, collect, renumber, tokens_main,
}
use eth_project.Address.TopTokens.Rows.{
  has, IsUnique-append, IsUnique-reordered, renumber-IsUnique, length-renumber, ranks-renumber,
  length_reordered, numbers_from,
}

-- Distinct addresses that are all seen, and at most the target.
record IsGood (s : Found) : Type 0 where
  unique : IsUnique Row.address s.rows
  seen : (a : String) → any_of (str_eq a) s.seen_addresses ≡ has a s.rows
  few : length s.rows ≤ 1000

written :
    (sort_values : List Row → List Row)
    → IsReordering sort_values
    → (s : Found) (table : List Row) → IsGood s
    → (if non_empty s.rows then some (renumber 0 (sort_values s.rows)) else none) ≡ some table
    → IsUnique Row.address table
      × (length table ≤ 1000)
      × (map Row.rank table ≡ numbers_from 0 table)
written sort_values perm s table g h = elim (Bool-cases (non_empty s.rows)) [
  | inr e ↦ absurd (ground (arith, rw e at h))
  | inl e ↦
      let same : renumber 0 (sort_values s.rows) ≡ table = ground (arith, rw e at h) in
      rw (← same) (
        renumber-IsUnique 0 (sort_values s.rows) (IsUnique-reordered (symm (perm s.rows)) g.unique),
        omega
            (arith, length-renumber 0 (sort_values s.rows), length_reordered (perm s.rows), g.few),
        ranks-renumber 0 (sort_values s.rows),
      )
]

module _ (upper clean : String → String) (starts_with_0x : String → Bool) where
  address-token_row :
      (n : ℕ) (a : String) (c : Coin) → Row.address (token_row upper clean starts_with_0x n a c) ≡ a
  unfolding token_row
  address-token_row n a c = refl

  add_unseen-IsGood :
      (a : String) (c : Coin) (s : Found)
      → length s.rows + 1 ≤ 1000
      → IsGood s
      → IsGood (add_unseen upper clean starts_with_0x a c s)
  unfolding add_unseen
  add_unseen-IsGood a c s l g = elim (Bool-cases (any_of (str_eq a) s.seen_addresses)) [
    | inl e ↦ rw e g
    | inr e ↦ rw e (
        let row = token_row upper clean starts_with_0x (s.rank_counter + 1) a c in
        record {
          unique =
              IsUnique-append s.rows row g.unique
                (rw (address-token_row (s.rank_counter + 1) a c) (sym (g.seen a) ∙ e));
          seen = λ b. grind (
            arith,
            any_of-append (λ r. str_eq b (Row.address r)) s.rows (row ∷ []),
            g.seen b,
            address-token_row (s.rank_counter + 1) a c,
          );
          few = omega (arith, length-append s.rows (row ∷ []), l);
        })
  ]

  ranked_tokens-IsGood :
      (platforms : List Platform) (cs : List Coin) (s : Found)
      → IsGood s
      → IsGood (ranked_tokens upper clean starts_with_0x platforms cs s)
  unfolding ranked_tokens add_ranked
  ranked_tokens-IsGood platforms [] s g = g
  ranked_tokens-IsGood platforms (c ∷ cs) s g =
      elim (Bool-cases (leb target_count (length s.rows))) [
        | inl e ↦ rw e g
        | inr e ↦ rw e (elim (Option-cases (address_of upper clean starts_with_0x platforms c)) [
          | inl n ↦ rw n (ranked_tokens-IsGood platforms cs s g)
          | inr (a, h) ↦ rw h (
              ranked_tokens-IsGood platforms cs (add_unseen upper clean starts_with_0x a c s)
                (add_unseen-IsGood a c s (ground (arith, e)) g))
        ])
      ]

  with_page-IsGood :
      (platforms : List Platform) (next : Found → Found) (answer : Fetched Coin) (s : Found)
      → ((t : Found) → IsGood t → IsGood (next t))
      → IsGood s
      → IsGood (with_page upper clean starts_with_0x platforms next answer s)
  unfolding with_page
  with_page-IsGood platforms next (gave_up w) s keep g = g
  with_page-IsGood platforms next (fetched [] w) s keep g = g
  with_page-IsGood platforms next (fetched (c ∷ cs) w) s keep g =
      keep (ranked_tokens upper clean starts_with_0x platforms (c ∷ cs) s)
        (ranked_tokens-IsGood platforms (c ∷ cs) s g)

  pages-IsGood :
      (env : Requests) (platforms : List Platform) (left : ℕ) (s : Found)
      → IsGood s
      → IsGood (pages upper clean starts_with_0x env platforms left s)
  unfolding pages
  pages-IsGood env platforms zero s g = g
  pages-IsGood env platforms (suc left) s g = elim (Bool-cases (ltb (length s.rows) target_count)) [
    | inr e ↦ rw e g
    | inl e ↦ rw e (
        with_page-IsGood platforms (pages upper clean starts_with_0x env platforms left)
          (fetch_with_retry (env.page (max_pages - left))) s (pages-IsGood env platforms left) g)
  ]

  -- The set of seen addresses is that of the rows.
  abbrev IsSeen : Found → Type 0
  IsSeen s = (a : String) → any_of (str_eq a) s.seen_addresses ≡ has a s.rows

  add_mandatory-IsSeen :
      (o : Option String) (c : Coin) (s : Found)
      → IsSeen s
      → IsSeen (add_mandatory upper clean starts_with_0x o c s)
  unfolding add_mandatory
  add_mandatory-IsSeen none c s h = h
  add_mandatory-IsSeen (some a) c s h =
      let row = token_row upper clean starts_with_0x 0 a c in
      λ b. grind (
        arith,
        any_of-append (λ r. str_eq b (Row.address r)) s.rows (row ∷ []),
        h b,
        address-token_row 0 a c,
      )

  mandatory_tokens-IsSeen :
      (platforms : List Platform) (cs : List Coin) (s : Found)
      → IsSeen s
      → IsSeen (mandatory_tokens upper clean starts_with_0x platforms cs s)
  unfolding mandatory_tokens
  mandatory_tokens-IsSeen platforms [] s h = h
  mandatory_tokens-IsSeen platforms (c ∷ cs) s h =
      mandatory_tokens-IsSeen platforms cs
        (add_mandatory upper clean starts_with_0x
          (address_of upper clean starts_with_0x platforms c) c s)
        (add_mandatory-IsSeen (address_of upper clean starts_with_0x platforms c) c s h)

  -- The tokens that are always wanted, as the first part of main finds them.
  abbrev pub wanted : List Platform → List Coin → List Row
  wanted platforms cs =
      (mandatory_tokens upper clean starts_with_0x platforms cs nothing_found).rows

  collect-IsGood :
      (env : Requests) (p : Platform) (ps : List Platform) (cs : List Coin) (w w' : ℕ)
      → fetch_with_retry env.mandatory ≡ fetched cs w'
      → IsUnique Row.address (wanted (p ∷ ps) cs)
      → length (wanted (p ∷ ps) cs) ≤ 1000
      → IsGood (collect upper clean starts_with_0x env (fetched (p ∷ ps) w))
  unfolding collect after_mandatory count_rows
  collect-IsGood env p ps cs w w' m u l = rw m (
      pages-IsGood env (p ∷ ps) max_pages
        (count_rows (mandatory_tokens upper clean starts_with_0x (p ∷ ps) cs nothing_found))
        (record {
          unique = u;
          seen = mandatory_tokens-IsSeen (p ∷ ps) cs nothing_found (λ a. refl);
          few = l;
        }))

  -- The table that is written holds no address twice and at most 1000 tokens, ranked from 1 on without
  -- a gap, whatever the requests of the pages are answered; if the two requests before them are
  -- answered, the wanted tokens are not too many and of distinct addresses, and pandas sorts.
  pub tokens_main_lem :
      (sort_values : List Row → List Row) (env : Requests) (p : Platform) (ps : List Platform)
      (cs : List Coin) (w w' : ℕ) (table : List Row)
      → IsReordering sort_values
      → fetch_with_retry env.platforms ≡ fetched (p ∷ ps) w
      → fetch_with_retry env.mandatory ≡ fetched cs w'
      → IsUnique Row.address (wanted (p ∷ ps) cs)
      → length (wanted (p ∷ ps) cs) ≤ 1000
      → tokens_main upper clean starts_with_0x sort_values env ≡ some table
      → IsUnique Row.address table
        × (length table ≤ 1000)
        × (map Row.rank table ≡ numbers_from 0 table)
  unfolding tokens_main
  tokens_main_lem sort_values env p ps cs w w' table perm e m u l h =
      written sort_values perm (collect upper clean starts_with_0x env (fetched (p ∷ ps) w)) table
        (collect-IsGood env p ps cs w w' m u l) (rw e at h)
