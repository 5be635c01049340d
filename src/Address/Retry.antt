-- ===== src/Address/Retry.antt =====
-- `fetch_with_retry` of address/top1000_erc20_tokens.py: at most five requests. What each of them
-- meets is an argument.
use eth_project.Prelude.{ℕ, zero, suc, ◌+◌, ◌*◌, ◌<◌, ◌≡◌, refl, ◌⊎◌, inl, inr, List, [], arith}

-- Status 429, another failure, or the decoded body.
pub data Answer {ℓ} (A : Type ℓ) : Type ℓ where
  rate_limited failed : Answer A
  body : List A → Answer A

-- The list that is returned, or the last exception, with the seconds of waiting.
pub data Fetched {ℓ} (A : Type ℓ) : Type ℓ where
  fetched : List A → ℕ → Fetched A
  gave_up : ℕ → Fetched A

abbrev pub max_attempts : ℕ
max_attempts = 5

module _ {ℓ} {A : Type ℓ} where
  -- The loop from attempt `i` on, whose answer is number 0, with `left` attempts to go.
  unfoldable pub attempts_from : (ℕ → Answer A) → (i left waited : ℕ) → Fetched A
  attempts_from answers i zero waited = fetched [] waited
  attempts_from answers i (suc zero) waited = elim (answers 0) [
    | rate_limited ↦ fetched [] (waited + 30 * suc i)
    | failed ↦ gave_up waited
    | body xs ↦ fetched xs waited
  ]
  attempts_from answers i (suc (suc left)) waited = elim (answers 0) [
    | rate_limited ↦ attempts_from (λ n. answers (suc n)) (suc i) (suc left) (waited + 30 * suc i)
    | failed ↦ attempts_from (λ n. answers (suc n)) (suc i) (suc left) (waited + 10)
    | body xs ↦ fetched xs waited
  ]

  unfoldable pub fetch_with_retry : (ℕ → Answer A) → Fetched A
  unfolding attempts_from
  fetch_with_retry answers = attempts_from answers 0 max_attempts 0

  -- An answer after which another request is made.
  abbrev pub Retries : Answer A → Type ℓ
  Retries a = (a ≡ rate_limited) ⊎ (a ≡ failed)

  attempts-body :
      (k : ℕ) (answers : ℕ → Answer A) (i left waited : ℕ) (xs : List A)
      → k < left
      → answers k ≡ body xs
      → ((j : ℕ) → j < k → Retries (answers j))
      → (w : ℕ) × (attempts_from answers i left waited ≡ fetched xs w)
  unfolding attempts_from
  attempts-body zero answers i zero waited xs l b r = absurd (omega (arith, l))
  attempts-body zero answers i (suc zero) waited xs l b r = (waited, rw (attempts_from, b) refl)
  attempts-body zero answers i (suc (suc left)) waited xs l b r =
      (waited, rw (attempts_from, b) refl)
  attempts-body (suc k) answers i zero waited xs l b r = absurd (omega (arith, l))
  attempts-body (suc k) answers i (suc zero) waited xs l b r = absurd (omega (arith, l))
  attempts-body (suc k) answers i (suc (suc left)) waited xs l b r = elim (r 0 (omega arith)) [
    | inl limited ↦
        rw (attempts_from, limited)
          (attempts-body k (λ n. answers (suc n)) (suc i) (suc left) (waited + 30 * suc i) xs
            (omega (arith, l)) b (λ j m. r (suc j) (omega (arith, m))))
    | inr broken ↦
        rw (attempts_from, broken)
          (attempts-body k (λ n. answers (suc n)) (suc i) (suc left) (waited + 10) xs
            (omega (arith, l)) b (λ j m. r (suc j) (omega (arith, m))))
  ]

  -- The first of five requests that is answered by a list decides: that list is returned, whatever
  -- failures came before it.
  pub fetch_first :
      (answers : ℕ → Answer A) (k : ℕ) (xs : List A)
      → k < 5
      → answers k ≡ body xs
      → ((j : ℕ) → j < k → Retries (answers j))
      → (w : ℕ) × (fetch_with_retry answers ≡ fetched xs w)
  unfolding fetch_with_retry
  fetch_first answers k xs l b r = attempts-body k answers 0 5 0 xs l b r
