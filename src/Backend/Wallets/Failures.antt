-- ===== src/Backend/Wallets/Failures.antt =====
-- One row without a receiver makes the whole history fail.
use eth_project.Prelude.{◌≡◌, refl, Option, none, some, List, [], ◌∷◌, ◌++◌, String, arith}
use eth_project.Backend.Wallets.{EthRow, TokenRow, eth_history, each, get_wallet_history}

module _ (lower : String → String) where
  creation_history :
      (address : String) (row : EthRow)
      → row.to_address ≡ none
      → eth_history lower address row ≡ none
  unfolding eth_history
  creation_history address row h = ground (arith, h)

  each_fails :
      {A B : Type 0} (f : A → Option B) (xs : List A) (x : A) (ys : List A)
      → f x ≡ none
      → each lower f (xs ++ (x ∷ ys)) ≡ none
  each_fails f [] x ys h = rw h refl
  each_fails f (z ∷ xs) x ys h = rw (each_fails f xs x ys h) (ground arith)

  -- Where one of the rows has no receiver, as the creation of a contract has none, the history of
  -- the wallet is `DatabaseFetchError`, whatever the other rows are.
  pub creation_fails :
      (eth_rows : String → Option (List EthRow)) (token_rows : String → Option (List TokenRow))
      (raw : String) (before after : List EthRow) (row : EthRow)
      → row.to_address ≡ none
      → eth_rows (lower raw) ≡ some (before ++ (row ∷ after))
      → get_wallet_history lower eth_rows token_rows raw ≡ none
  unfolding get_wallet_history
  creation_fails eth_rows token_rows raw before after row h e =
      rw
        (
          e,
          each_fails (eth_history lower (lower raw)) before row after
              (creation_history (lower raw) row h),
        )
        (ground arith)
