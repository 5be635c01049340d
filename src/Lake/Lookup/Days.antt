-- ===== src/Lake/Lookup/Days.antt =====
-- The range of a day that is over holds the blocks of that day.
use eth_project.Prelude.{
  ℕ, suc, ◌*◌, ◌^◌, ◌≤◌, ◌<◌, ◌≡◌, refl, ◌↔◌, String, str_eq, false, Option, some, pos, sub_ℕ,
  arith, inl, inr, Bool-cases, leb, ◌≤ℤ◌, le→not_ltb,
}
use eth_project.Lake.Lookup.{
  after, Service, day_length, block_query, block_of_reply, get_block_number_by_date, Range,
  range_of, block_range,
}

-- A chain whose blocks do not go back in time, and an answer that is its first block from a time on.
abbrev pub IsChain : (ℕ → ℕ) → Type 0
IsChain times = (m n : ℕ) → m ≤ n → times m ≤ times n

abbrev pub IsFirst : (ℕ → ℕ) → ℕ → ℕ → Type 0
IsFirst times t n = (t ≤ times n) × ((m : ℕ) → m < n → times m < t)

module _ (read_number : String → Option ℕ) (service : Service) (times : ℕ → ℕ) where
  -- What Etherscan answers to a question for the closest block after a time.
  abbrev pub Answers : ℕ → ℕ → Type 0
  Answers t n = (block_of_reply read_number (service t after) ≡ some n) × IsFirst times t n

  lookup_past :
      (now date n : ℕ)
      → date * day_length * 10 ^ 6 ≤ now
      → Answers (date * day_length) n
      → get_block_number_by_date read_number service now date after ≡ some n
  unfolding get_block_number_by_date block_query
  lookup_past now date n past answers =
      rw (le→not_ltb now (date * day_length * 10 ^ 6) past) (answers.0)

  first_iff : (t f n : ℕ) → IsChain times → IsFirst times t f → (f ≤ n) ↔ (t ≤ times n)
  first_iff t f n chain first = elim (Bool-cases (leb f n)) [
    | inl e ↦ ground (arith, e, first.0, chain f n (ground (arith, e)))
    | inr e ↦ ground (arith, e, first.1 n (ground (arith, e)))
  ]

  end_iff : (n e : ℕ) → (pos n ≤ℤ sub_ℕ e 1) ↔ (n < e)
  end_iff n e = ground arith

  -- If the day is over at both lookups, the key is there and Etherscan answers as it says it does, then the range is found, and it holds a block just when the block's time is in the day.
  pub block_range_lem :
      (key : String) (now later date first next : ℕ)
      → str_eq key "" ≡ false
      → suc date * day_length * 10 ^ 6 ≤ now
      → now ≤ later
      → IsChain times
      → Answers (date * day_length) first
      → Answers (suc date * day_length) next
      → (r : Range) × (block_range read_number service (some key) now later date ≡ some r)
        × ((n : ℕ)
            → ((Range.start r ≤ n) × (pos n ≤ℤ Range.end_ r))
              ↔ ((date * day_length ≤ times n) × (times n < suc date * day_length)))
  unfolding block_range range_of
  block_range_lem key now later date first next k past order chain from to =
      let found : Range = record { start = first; end_ = sub_ℕ next 1; date = date } in
      (
        found,
        rw
            (
              k,
              lookup_past now date first (omega (arith, past)) from,
              lookup_past later (suc date) next (omega (arith, past, order)) to,
            )
            refl,
        λ n. ground (
          arith,
          first_iff (date * day_length) first n chain from.1,
          first_iff (suc date * day_length) next n chain to.1,
          end_iff n next,
        ),
      )
