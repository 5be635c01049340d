-- ===== src/Backend/Wallets/Directions.antt =====
-- Which way a transfer of the history went.
use mathlib.Core.Path.{subst}
use eth_project.Prelude.{
  ℤ, ◌≡◌, ◌↔◌, refl, ap, ◌∙◌, inl, inr, Option, none, some, List, [], ◌∷◌, String, arith, All,
  str_eq, str_eq_iff, Bool-cases, if◌then◌else◌,
}
use eth_project.Backend.Wallets.{
  EthRow, TokenRow, EthTransactionHistory, TokenTransferHistory, WalletHistory, Direction, outgoing,
  incoming, direction, eth_history, token_history, each, ◌>>=◌, get_wallet_history,
}

module _ (lower : String → String) where
  -- An entry is outgoing just when its sender is the address, whatever the case of the letters.
  pub Sent : String → Direction → String → Type 0
  Sent address d from_address = (d ≡ outgoing) ↔ (lower from_address ≡ address)

  direction_lem :
      (address a : String) → lower "" ≡ "" → Sent address (direction lower address (some a)) a
  unfolding direction Sent
  direction_lem address a e = elim (Bool-cases (str_eq a "")) [
    | inl empty ↦ rw empty (empty_direction (((str_eq_iff a "").0) empty))
    | inr full ↦ rw full (ground (arith, str_eq_iff (lower a) address))
  ]
    where
      empty_direction :
          a ≡ ""
          → ((if str_eq "" address then outgoing else incoming) ≡ outgoing) ↔ (lower a ≡ address)
      empty_direction h = ground (arith, str_eq_iff "" address, ap lower h ∙ e)

  -- What holds of a result, if there is one.
  abbrev Holds : {B : Type 0} → (B → Type 0) → Option B → Type 0
  Holds P none = Unit
  Holds P (some y) = P y

  next-All :
      {B : Type 0} (P : B → Type 0) (m : Option B) (r : Option (List B))
      → Holds P m
      → Holds (All P) r
      → Holds (All P) (m >>= λ y. r >>= λ ys. some (y ∷ ys))
  next-All P none r h k = tt
  next-All P (some y) none h k = tt
  next-All P (some y) (some ys) h k = (h, k)

  each-All :
      {A B : Type 0} (f : A → Option B) (P : B → Type 0)
      → ((x : A) → Holds P (f x))
      → (xs : List A) → Holds (All P) (each lower f xs)
  each-All f P h [] = tt
  each-All f P h (x ∷ xs) = next-All P (f x) (each lower f xs) (h x) (each-All f P h xs)

  -- The directions of the two lists of a response are right for its address.
  abbrev pub Directed : WalletHistory → Type 0
  Directed h =
      All (λ t. Sent h.address t.type_ t.from_address) h.eth_transactions
      × All (λ t. Sent h.address t.type_ t.from_address) h.token_transfers

  eth_history-Sent :
      (address : String) (row : EthRow)
      → lower "" ≡ ""
      → Holds (λ t. Sent address t.type_ t.from_address) (eth_history lower address row)
  unfolding eth_history
  eth_history-Sent address row e = go row.value row.from_address row.to_address
    where
      go :
          (v : Option ℤ) (a b : Option String)
          → Holds
              (λ t. Sent address t.type_ t.from_address)
              (eth_history lower address
                (record row { value = v; from_address = a; to_address = b }))
      go none a b = tt
      go (some v) none b = tt
      go (some v) (some a) none = tt
      go (some v) (some a) (some b) = direction_lem address a e

  token_history-Sent :
      (address : String) (row : TokenRow)
      → lower "" ≡ ""
      → Holds (λ t. Sent address t.type_ t.from_address) (token_history lower address row)
  unfolding token_history
  token_history-Sent address row e = go row.value row.from_address row.to_address
    where
      go :
          (v : Option ℤ) (a b : Option String)
          → Holds
              (λ t. Sent address t.type_ t.from_address)
              (token_history lower address
                (record row { value = v; from_address = a; to_address = b }))
      go none a b = tt
      go (some v) none b = tt
      go (some v) (some a) none = tt
      go (some v) (some a) (some b) = direction_lem address a e

  module _ (eth_rows : String → Option (List EthRow))
      (token_rows : String → Option (List TokenRow)) where
    respond-Directed :
        (address : String)
        → (eths : Option (List EthTransactionHistory)) (tokens : Option (List TokenTransferHistory))
        → Holds (All (λ t. Sent address t.type_ t.from_address)) eths
        → Holds (All (λ t. Sent address t.type_ t.from_address)) tokens
        → Holds
            (λ h. Directed h × (h.address ≡ address))
            (eths >>= λ es. tokens >>= λ ts.
              some (record { address = address; eth_transactions = es; token_transfers = ts }))
    respond-Directed address none tokens h k = tt
    respond-Directed address (some es) none h k = tt
    respond-Directed address (some es) (some ts) h k = ((h, k), refl)

    history-Directed :
        (raw : String)
        → lower "" ≡ ""
        → Holds
            (λ h. Directed h × (h.address ≡ lower raw))
            (get_wallet_history lower eth_rows token_rows raw)
    unfolding get_wallet_history
    history-Directed raw e = go (eth_rows (lower raw)) (token_rows (lower raw))
      where
        go :
            (es : Option (List EthRow)) (ts : Option (List TokenRow))
            → Holds
                (λ h. Directed h × (h.address ≡ lower raw))
                (es >>= λ eths. ts >>= λ tokens.
                  each lower (eth_history lower (lower raw)) eths >>= λ eth_txs.
                  each lower (token_history lower (lower raw)) tokens >>= λ token_txs.
                  some (record {
                    address = lower raw;
                    eth_transactions = eth_txs;
                    token_transfers = token_txs;
                  }))
        go none ts = tt
        go (some eths) none = tt
        go (some eths) (some tokens) =
            respond-Directed (lower raw) _ _
              (each-All (eth_history lower (lower raw)) _ (λ r. eth_history-Sent (lower raw) r e)
                eths)
              (each-All (token_history lower (lower raw)) _
                (λ r. token_history-Sent (lower raw) r e) tokens)

    -- In a history that is returned, the address is in lower case, and each transaction and transfer
    -- is marked as outgoing just when its sender, in lower case, is that address. That the empty text
    -- is its own lower case is assumed.
    pub wallet-Directed :
        (raw : String) (h : WalletHistory)
        → lower "" ≡ ""
        → get_wallet_history lower eth_rows token_rows raw ≡ some h
        → Directed h × (h.address ≡ lower raw)
    wallet-Directed raw h e r =
        subst (Holds (λ t. Directed t × (t.address ≡ lower raw))) r (history-Directed raw e)
