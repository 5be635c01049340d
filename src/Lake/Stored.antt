-- ===== src/Lake/Stored.antt =====
-- Objects in the bucket stay there: for an object, which actions keep it and which put it there.
pub mod Primitives
pub mod Kept
pub mod Exports
use eth_project.Prelude.{
  ℕ, String, str_eq, str_eq_refl, ◌≡◌, refl, sym, ap, ◌∙◌, Bool, true, false, ◌&&◌, ◌||◌, Option,
  none, some, List, [], ◌∷◌, ◌++◌, any_of, any_of-append, inl, inr, Bool-cases, arith,
  if◌then◌else◌, ◌==◌,
}
use eth_project.Action.{
  Action, Exception, Result, ok, raised, pure, continue, call, cloud_error, handled, on_exception,
  finally, ◌>>=◌, ◌>>◌,
}
use eth_project.Action.Outcomes.{After, Ensures}
use eth_project.Lake.Files.{
  FileName, blocks, transactions, receipts, token_transfers, contracts, whale_hashes, addresses,
  File, Local, Shell, same_file, exists, read, run_shell, require, upload_to_gcs, cleanup,
  remove_file,
}

pub same_file_refl : (f : FileName) → same_file f f ≡ true
unfolding same_file
same_file_refl (blocks a b) = ground arith
same_file_refl (transactions a b) = ground arith
same_file_refl (receipts a b) = ground arith
same_file_refl (token_transfers a b) = ground arith
same_file_refl (contracts a b) = ground arith
same_file_refl (whale_hashes f) = same_file_refl f
same_file_refl (addresses f) = same_file_refl f

module _ (name : FileName) (date : String) where
  abbrev pub is_object : FileName × String × File → Bool
  is_object o = same_file name o.0 && str_eq date o.1

  -- The file was uploaded to the partition of the date.
  abbrev pub IsStored : Local → Type 0
  IsStored s = any_of is_object s.bucket ≡ true

  abbrev pub AnyError : Exception → Local → Type 0
  AnyError e s = Unit

  module _ {A : Type 0} where
    -- An action that keeps the object, and one that has put it there when it returns.
    unfoldable pub Keeps : Action Local A → Type 0
    Keeps m = (s : Local) → IsStored s → IsStored (m s).1

    unfoldable pub Stores : Action Local A → Type 0
    Stores m = (s : Local) → Ensures (λ _ t. IsStored t) AnyError m s

  module _ {A : Type 0} where
    pub Keeps-finally :
        (m : Action Local A) (last : Action Local (Unit {0}))
        → Keeps m
        → Keeps last
        → Keeps (finally m last)
    unfolding Keeps
    Keeps-finally m last km kl s h = go (last (m s).1).0 (last (m s).1).1 (kl (m s).1 (km s h))
      where
        go :
            (r : Result (Unit {0})) (t : Local)
            → IsStored t
            → IsStored (continue r (λ _ u. ((m s).0, u)) t).1
        go (ok x) t p = p
        go (raised e) t p = p

    pub Keeps-on_exception :
        (m : Action Local A) (last : Action Local (Unit {0}))
        → Keeps m
        → Keeps last
        → Keeps (on_exception m last)
    unfolding Keeps
    Keeps-on_exception m last km kl s h = go (m s).0 (m s).1 (km s h)
      where
        after :
            (e : Exception) (r : Result (Unit {0})) (t : Local)
            → IsStored t
            → IsStored (continue {B = A} r (λ _ u. (raised e, u)) t).1
        after e (ok x) t p = p
        after e (raised e2) t p = p

        go : (r : Result A) (t : Local) → IsStored t → IsStored (handled r last t).1
        go (ok x) t p = p
        go (raised e) t p = after e (last t).0 (last t).1 (kl t p)

    pub Stores-finally :
        (m : Action Local A) (last : Action Local (Unit {0}))
        → Stores m
        → Keeps last
        → Stores (finally m last)
    unfolding Stores Keeps
    Stores-finally m last sm kl s = go (m s).0 (m s).1 (sm s)
      where
        after :
            (r : Result A) (q : Result (Unit {0})) (t : Local)
            → After (λ _ u. IsStored u) AnyError r t
            → After
                (λ _ u. IsStored u)
                AnyError
                (continue q (λ _ u. (r, u)) t).0
                (continue q (λ _ u. (r, u)) t).1
        after r (ok x) t p = p
        after r (raised e) t p = tt

        kept :
            (r : Result A) (t : Local)
            → After (λ _ u. IsStored u) AnyError r t
            → After (λ _ u. IsStored u) AnyError r (last t).1
        kept (ok a) t p = kl t p
        kept (raised e) t p = tt

        go :
            (r : Result A) (t : Local)
            → After (λ _ u. IsStored u) AnyError r t
            → After
                (λ _ u. IsStored u)
                AnyError
                (continue (last t).0 (λ _ u. (r, u)) (last t).1).0
                (continue (last t).0 (λ _ u. (r, u)) (last t).1).1
        go r t p = after r (last t).0 (last t).1 (kept r t p)

    pub Stores-on_exception :
        (m : Action Local A) (last : Action Local (Unit {0}))
        → Stores m
        → Stores (on_exception m last)
    unfolding Stores
    Stores-on_exception m last sm s = go (m s).0 (m s).1 (sm s)
      where
        after :
            (e : Exception) (q : Result (Unit {0})) (t : Local)
            → After
                (λ _ u. IsStored u)
                AnyError
                (continue {B = A} q (λ _ u. (raised e, u)) t).0
                (continue {B = A} q (λ _ u. (raised e, u)) t).1
        after e (ok x) t = tt
        after e (raised e2) t = tt

        go :
            (r : Result A) (t : Local)
            → After (λ _ u. IsStored u) AnyError r t
            → After (λ _ u. IsStored u) AnyError (handled r last t).0 (handled r last t).1
        go (ok a) t p = p
        go (raised e) t p = after e (last t).0 (last t).1

  module _ {A B : Type 0} where
    pub Keeps-bind :
        (m : Action Local A) (f : A → Action Local B)
        → Keeps m
        → ((a : A) → Keeps (f a))
        → Keeps (m >>= f)
    unfolding Keeps
    Keeps-bind m f km kf s h = go (m s).0 (m s).1 (km s h)
      where
        go : (r : Result A) (t : Local) → IsStored t → IsStored (continue r f t).1
        go (ok a) t p = kf a t p
        go (raised e) t p = p

    -- The later action puts the object there.
    pub Stores-bind :
        (m : Action Local A) (f : A → Action Local B) → ((a : A) → Stores (f a)) → Stores (m >>= f)
    unfolding Stores
    Stores-bind m f sf s = go (m s).0 (m s).1
      where
        go :
            (r : Result A) (t : Local)
            → After (λ _ u. IsStored u) AnyError (continue r f t).0 (continue r f t).1
        go (ok a) t = sf a t
        go (raised e) t = tt

    -- The first action does, and the later one keeps it.
    pub Stores-first :
        (m : Action Local A) (f : A → Action Local B)
        → Stores m
        → ((a : A) → Keeps (f a))
        → Stores (m >>= f)
    unfolding Stores Keeps
    Stores-first m f sm kf s = go (m s).0 (m s).1 (sm s)
      where
        kept :
            (a : A) (r : Result B) (t : Local) → IsStored t → After (λ _ u. IsStored u) AnyError r t
        kept a (ok b) t p = p
        kept a (raised e) t p = tt

        go :
            (r : Result A) (t : Local)
            → After (λ _ u. IsStored u) AnyError r t
            → After (λ _ u. IsStored u) AnyError (continue r f t).0 (continue r f t).1
        go (ok a) t p = kept a (f a t).0 (f a t).1 (kf a t p)
        go (raised e) t p = tt
