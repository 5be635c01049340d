-- ===== src/Lake/Stored/Primitives.antt =====
-- The steps of the exports: which keep an object of the bucket, and which put it there.
use eth_project.Prelude.{
  String, str_eq_refl, ◌≡◌, refl, Bool, true, false, List, [], ◌∷◌, ◌++◌, any_of-append, inl, inr,
  Bool-cases, arith,
}
use eth_project.Action.{Exception, Result, raised, pure, call, cloud_error}
use eth_project.Lake.Files.{
  FileName, File, Local, Shell, exists, read, run_shell, require, upload_to_gcs, cleanup,
  remove_file,
}
use eth_project.Lake.Stored.{is_object, Keeps, Stores, same_file_refl, Keeps-bind, Stores-bind}

module _ (name : FileName) (date : String) where
  pub Keeps-run_shell : (shell : Shell) → Keeps name date (run_shell shell)
  unfolding run_shell Keeps
  Keeps-run_shell shell s h = elim (Bool-cases shell.succeeds) [ inl e ↦ rw e h | inr e ↦ rw e h ]

  pub Keeps-require : (file : FileName) → Keeps name date (require file)
  unfolding require Keeps
  Keeps-require file s h = elim (Bool-cases (exists file s)) [ inl e ↦ rw e h | inr e ↦ rw e h ]

  read_state :
      (file : FileName) (disk : List (FileName × File)) (s : Local) → (read file disk s).1 ≡ s
  unfolding read
  read_state file [] s = refl
  read_state file (e ∷ disk) s = ground (arith, read_state file disk s)

  pub Keeps-read : (file : FileName) → Keeps name date (λ s. read file s.disk s)
  unfolding Keeps
  Keeps-read file s h = rw (read_state file s.disk s) h

  pub Keeps-cleanup :
      (removable : Bool) (file : FileName) → Keeps name date (cleanup removable file)
  unfolding cleanup remove_file Keeps
  Keeps-cleanup true file s h = h
  Keeps-cleanup false file s h = h

  pub Keeps-put :
      (accepts : Bool) (other : FileName) (day : String) (file : File)
      → Keeps name date (
          call accepts cloud_error
            (λ s. record s { bucket = s.bucket ++ ((other, day, file) ∷ []) }))
  unfolding Keeps
  Keeps-put true other day file s h =
      rw (any_of-append (is_object name date) s.bucket ((other, day, file) ∷ []), h) refl
  Keeps-put false other day file s h = h

  pub Keeps-upload :
      (accepts : Bool) (other : FileName) (day : String)
      → Keeps name date (upload_to_gcs accepts other day)
  unfolding upload_to_gcs
  Keeps-upload accepts other day =
      Keeps-bind name date (λ s. read other s.disk s)
        (λ file.
          call accepts cloud_error
            (λ s. record s { bucket = s.bucket ++ ((other, day, file) ∷ []) }))
        (Keeps-read other) (λ file. Keeps-put accepts other day file)

  pub Stores-put :
      (accepts : Bool) (file : File)
      → Stores name date (
          call accepts cloud_error
            (λ s. record s { bucket = s.bucket ++ ((name, date, file) ∷ []) }))
  unfolding Stores
  Stores-put true file s = ground (
    arith,
    any_of-append (is_object name date) s.bucket ((name, date, file) ∷ []),
    same_file_refl name,
    str_eq_refl date,
  )
  Stores-put false file s = tt

  pub Stores-upload : (accepts : Bool) → Stores name date (upload_to_gcs accepts name date)
  unfolding upload_to_gcs
  Stores-upload accepts =
      Stores-bind name date (λ s. read name s.disk s)
        (λ file.
          call accepts cloud_error
            (λ s. record s { bucket = s.bucket ++ ((name, date, file) ∷ []) }))
        (λ file. Stores-put accepts file)

  pub Keeps-pure : {A : Type 0} (a : A) → Keeps name date {A = A} (pure a)
  unfolding Keeps
  Keeps-pure a s h = h

  pub Keeps-result : {A : Type 0} (r : Result A) → Keeps name date {A = A} (λ s. (r, s))
  unfolding Keeps
  Keeps-result r s h = h

  pub Stores-raised : (A : Type 0) (e : Exception) → Stores name date {A = A} (λ s. (raised e, s))
  unfolding Stores
  Stores-raised A e s = tt
