-- ===== src/Action.antt =====
-- Code that changes a state and may raise. What was changed before a raise stays
-- changed, so the state comes back beside the exception.
pub mod Outcomes
use eth_project.Prelude.{Bool, true, false}

pub data Exception : Type 0 where
  validation_error type_error value_error : Exception
  kafka_exception buffer_error runtime_error : Exception
  database_error redis_error : Exception
  process_error file_not_found os_error cloud_error json_error airflow_fail : Exception

pub data Result {ℓ} (A : Type ℓ) : Type ℓ where
  ok : A → Result A
  raised : Exception → Result A

abbrev pub Action {ℓ} : Type ℓ → Type ℓ → Type ℓ
Action S A = S → Result A × S

module _ {ℓ} {S A : Type ℓ} where
  abbrev pub pure : A → Action S A
  pure a s = (ok a, s)

module _ {ℓ} {S : Type ℓ} {A B : Type ℓ} where
  abbrev pub continue : Result A → (A → Action S B) → Action S B
  continue (ok a) f s = f a s
  continue (raised e) f s = (raised e, s)

  infixl 10 ◌>>=◌ ◌>>◌
  abbrev pub ◌>>=◌ : Action S A → (A → Action S B) → Action S B
  ◌>>=◌ m f s = let (r, s') = m s in continue r f s'

  abbrev pub ◌>>◌ : Action S A → Action S B → Action S B
  m >> n = m >>= λ _. n

module _ {S : Type 0} where
  -- A call of an external library that returns, or raises `e` and changes nothing here.
  abbrev pub call : Bool → Exception → (S → S) → Action S (Unit {0})
  call true e f s = (ok tt, f s)
  call false e f s = (raised e, s)

module _ {S A : Type 0} where
  -- `except Exception: handler; raise`. An exception of the handler replaces the first one.
  abbrev pub handled : Result A → Action S (Unit {0}) → Action S A
  handled (ok a) h s = (ok a, s)
  handled (raised e) h s = let (r, s') = h s in continue r (λ _ t. (raised e, t)) s'

  abbrev pub on_exception : Action S A → Action S (Unit {0}) → Action S A
  on_exception m h s = let (r, s') = m s in handled r h s'

  -- `finally: last`. An exception of `last` replaces the result.
  abbrev pub finally : Action S A → Action S (Unit {0}) → Action S A
  finally m last s = let (r, s') = m s in let (r', t) = last s' in continue r' (λ _ u. (r, u)) t
