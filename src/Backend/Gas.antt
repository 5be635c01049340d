-- ===== src/Backend/Gas.antt =====
-- `get_average_gas_price_last_5_minutes` of backend/repositories/gas_repo.py. The average is an exact
-- quotient, and PostgreSQL's order of the rows, the newest first, is the argument `newest_first`.
use eth_project.Prelude.{
  ℕ, ◌+◌, ◌-◌, ◌*◌, ◌≤◌, ◌<◌, Option, none, some, List, [], ◌∷◌, length, select, leb, arith, All,
}

-- The columns of `transactions` that are read.
pub record GasRow : Type 0 where
  pub timestamp : ℕ
  pub gas_price : Option ℕ

-- The price `wei / count`.
pub record Price : Type 0 where
  pub wei : ℕ
  pub count : ℕ

-- The rows of the last five minutes.
unfoldable pub last_5_minutes : ℕ → List GasRow → List GasRow
last_5_minutes now rows = select (λ r. leb (now - 300) (GasRow.timestamp r)) rows

abbrev pub add_price : Option ℕ → List ℕ → List ℕ
add_price none ps = ps
add_price (some p) ps = p ∷ ps

unfoldable pub prices_of : List GasRow → List ℕ
prices_of [] = []
prices_of (r ∷ rows) = add_price r.gas_price (prices_of rows)

abbrev pub total : List ℕ → ℕ
total [] = 0
total (p ∷ ps) = p + total ps

abbrev pub known_price : Option ℕ → Price
known_price none = record { wei = 0; count = 1 }
known_price (some p) = record { wei = p; count = 1 }

-- The price of the first row, or zero.
unfoldable pub first_price : List GasRow → Price
first_price [] = record { wei = 0; count = 1 }
first_price (r ∷ rows) = known_price r.gas_price

-- `AVG` of the prices that are not null, if there is one.
unfoldable pub avg_or : Price → List ℕ → Price
avg_or fallback [] = fallback
avg_or fallback (p ∷ ps) = record { wei = total (p ∷ ps); count = length (p ∷ ps) }

unfoldable pub get_average_gas_price_last_5_minutes :
    (List GasRow → List GasRow) → ℕ → List GasRow → Price
get_average_gas_price_last_5_minutes newest_first now rows =
    avg_or (first_price (newest_first rows)) (prices_of (last_5_minutes now rows))

abbrev pub Within : ℕ → ℕ → Option ℕ → Type 0
Within lo hi none = Unit
Within lo hi (some p) = (lo ≤ p) × (p ≤ hi)

-- The sum of prices stands between two bounds of them.
abbrev Summed : ℕ → ℕ → List ℕ → Type 0
Summed lo hi ps = (lo * length ps ≤ total ps) × (total ps ≤ hi * length ps)

add_price-Summed :
    (lo hi : ℕ) (p : Option ℕ) (ps : List ℕ)
    → Within lo hi p
    → Summed lo hi ps
    → Summed lo hi (add_price p ps)
add_price-Summed lo hi none ps h s = s
add_price-Summed lo hi (some p) ps h s =
    (omega (arith, h.0, h.1, s.0, s.1), omega (arith, h.0, h.1, s.0, s.1))

prices_of-Summed :
    (lo hi : ℕ) (rows : List GasRow)
    → All (λ r. Within lo hi (GasRow.gas_price r)) rows
    → Summed lo hi (prices_of rows)
unfolding prices_of
prices_of-Summed lo hi [] h = (omega arith, omega arith)
prices_of-Summed lo hi (r ∷ rows) h =
    add_price-Summed lo hi r.gas_price (prices_of rows) h.0 (prices_of-Summed lo hi rows h.1)

avg_or-Summed :
    (lo hi : ℕ) (fallback : Price) (ps : List ℕ)
    → 0 < length ps
    → Summed lo hi ps
    → (lo * Price.count (avg_or fallback ps) ≤ Price.wei (avg_or fallback ps))
      × (Price.wei (avg_or fallback ps) ≤ hi * Price.count (avg_or fallback ps))
unfolding avg_or
avg_or-Summed lo hi fallback [] n s = absurd (omega arith)
avg_or-Summed lo hi fallback (p ∷ ps) n s = s

-- The average lies between two bounds of the prices of the last five minutes, if there is a price.
pub get_average_lem :
    (newest_first : List GasRow → List GasRow) (now lo hi : ℕ) (rows : List GasRow)
    → All (λ r. Within lo hi (GasRow.gas_price r)) (last_5_minutes now rows)
    → 0 < length (prices_of (last_5_minutes now rows))
    → (lo * Price.count (get_average_gas_price_last_5_minutes newest_first now rows)
        ≤ Price.wei (get_average_gas_price_last_5_minutes newest_first now rows))
      × (Price.wei (get_average_gas_price_last_5_minutes newest_first now rows)
          ≤ hi * Price.count (get_average_gas_price_last_5_minutes newest_first now rows))
unfolding get_average_gas_price_last_5_minutes
get_average_lem newest_first now lo hi rows h n =
    avg_or-Summed lo hi (first_price (newest_first rows)) (prices_of (last_5_minutes now rows)) n
      (prices_of-Summed lo hi (last_5_minutes now rows) h)
