-- ===== src/Tests/Collection.antt =====
-- The theorems about the collection of labels and tokens, at concrete inputs.
use eth_project.Prelude.{ℕ, zero, suc, ◌<◌, ◌≡◌, refl, inl, inr, some, [], ◌∷◌, String, arith}
use eth_project.Address.Labels.{resolve_category, first_category, resolve_category_lem}
use eth_project.Address.Retry.{
  Answer, rate_limited, failed, body, fetched, Retries, fetch_with_retry, fetch_first,
}

resolve_category_lem_example :
    resolve_category ("donate" ∷ "aave" ∷ "dex" ∷ [])
    ≡ first_category ("donate" ∷ "aave" ∷ "dex" ∷ [])
resolve_category_lem_example = resolve_category_lem ("donate" ∷ "aave" ∷ "dex" ∷ [])

category_run : first_category ("donate" ∷ "aave" ∷ "dex" ∷ []) ≡ some "DeFi"
unfolding first_category
category_run = refl

abbrev third_answers : ℕ → Answer String
third_answers zero = rate_limited
third_answers (suc zero) = failed
third_answers (suc (suc n)) = body ("weth" ∷ [])

not_yet : (j : ℕ) → j < 2 → Retries (third_answers j)
not_yet zero l = inl refl
not_yet (suc zero) l = inr refl
not_yet (suc (suc n)) l = absurd (omega (arith, l))

fetch_first_example : (w : ℕ) × (fetch_with_retry third_answers ≡ fetched ("weth" ∷ []) w)
fetch_first_example = fetch_first third_answers 2 ("weth" ∷ []) (omega arith) refl not_yet
