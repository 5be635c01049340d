-- ===== src/Lake/Transfers.antt =====
-- `export_token_transfers` of storage/etl/transfers.py, and `run_and_upload` of
-- storage/utils/shell.py.
use eth_project.Prelude.{
  ℕ, String, ◌≡◌, refl, ap, ◌∙◌, Bool, true, false, List, [], ◌∷◌, ◌++◌, arith, Bool-cases, inl,
  inr,
}
use eth_project.Action.{
  Action, Exception, Result, ok, raised, pure, continue, call, cloud_error, ◌>>=◌, ◌>>◌, finally,
  on_exception,
}
use eth_project.Action.Outcomes.{After, Ensures, Ensures-bind, Ensures-on_exception}
use eth_project.Lake.Files.{
  FileName, token_transfers, File, Local, Shell, exists, read, run_shell, require, upload_to_gcs,
  cleanup,
}
use eth_project.Lake.Files.Laws.{cleanup-exists}

pub record UploadEnv : Type 0 where
  pub shell : Shell
  pub accepts : Bool
  pub removable : Bool

-- The body of the `try`: it returns the size of the file.
unfoldable pub transfers_body : UploadEnv → FileName → String → Action Local ℕ
unfolding run_shell require read upload_to_gcs
transfers_body env name date = do
  run_shell env.shell
  require name
  upload_to_gcs env.accepts name date
  file ← (λ s. read name s.disk s)
  pure file.size

unfoldable pub export_token_transfers : UploadEnv → ℕ → ℕ → String → Action Local (FileName × ℕ)
unfolding transfers_body cleanup
export_token_transfers env start end_ date = do
  size ←
      on_exception (transfers_body env (token_transfers start end_) date)
        (cleanup env.removable (token_transfers start end_))
  pure (token_transfers start end_, size)

unfoldable pub run_and_upload : UploadEnv → FileName → String → Action Local (Unit {0})
unfolding run_shell require upload_to_gcs cleanup
run_and_upload env name date =
    finally (do run_shell env.shell; require name; upload_to_gcs env.accepts name date)
      (cleanup env.removable name)

read_disk : (name : FileName) (disk : List (FileName × File)) (s : Local) → (read name disk s).1 ≡ s
unfolding read
read_disk name [] s = refl
read_disk name (e ∷ disk) s = ground (arith, read_disk name disk s)

module _ (env : UploadEnv) (name : FileName) (date : String) (s : Local) where
  -- The file is there, and it was uploaded once.
  pub record Uploaded (t : Local) : Type 0 where
    pub there : exists name t ≡ true
    pub file : File
    pub object : t.bucket ≡ s.bucket ++ ((name, date, file) ∷ [])

  abbrev Anywhere : Exception → Local → Type 0
  Anywhere e t = Unit

  run_shell_lem : Ensures (λ _ t. t.bucket ≡ s.bucket) Anywhere (run_shell env.shell) s
  unfolding run_shell
  run_shell_lem = elim (Bool-cases env.shell.succeeds) [
    | inl good ↦ rw good refl
    | inr bad ↦ rw bad tt
  ]

  require_lem :
      (t : Local)
      → t.bucket ≡ s.bucket
      → Ensures (λ _ u. (exists name u ≡ true) × (u.bucket ≡ s.bucket)) Anywhere (require name) t
  unfolding require
  require_lem t h = elim (Bool-cases (exists name t)) [
    | inl here ↦ rw here (here, h)
    | inr gone ↦ rw gone tt
  ]

  upload_lem :
      (t : Local)
      → (exists name t ≡ true) × (t.bucket ≡ s.bucket)
      → Ensures (λ _ u. Uploaded u) Anywhere (upload_to_gcs env.accepts name date) t
  unfolding upload_to_gcs exists
  upload_lem t h = go (read name t.disk t).0 (read name t.disk t).1 (read_disk name t.disk t)
    where
      go :
          (r : Result File) (u : Local)
          → u ≡ t
          → After
              (λ _ v. Uploaded v)
              Anywhere
              (continue r
                (λ file.
                  call env.accepts cloud_error
                    (λ v. record v { bucket = v.bucket ++ ((name, date, file) ∷ []) }))
                u).0
              (continue r
                (λ file.
                  call env.accepts cloud_error
                    (λ v. record v { bucket = v.bucket ++ ((name, date, file) ∷ []) }))
                u).1
      go (raised e) u p = tt
      go (ok file) u p = sent env.accepts
        where
          sent :
              (b : Bool)
              → After
                  (λ _ v. Uploaded v)
                  Anywhere
                  (call b cloud_error
                    (λ v. record v { bucket = v.bucket ++ ((name, date, file) ∷ []) })
                    u).0
                  (call b cloud_error
                    (λ v. record v { bucket = v.bucket ++ ((name, date, file) ∷ []) })
                    u).1
          sent true = record {
            there = ap (exists name) p ∙ h.0;
            file = file;
            object = ap (λ l. l ++ ((name, date, file) ∷ [])) (ap (λ v. v.bucket) p ∙ h.1);
          }
          sent false = tt

  read_lem :
      (t : Local) → Uploaded t → Ensures (λ _ u. Uploaded u) Anywhere (λ v. read name v.disk v) t
  read_lem t h = go (read name t.disk t).0 (read name t.disk t).1 (read_disk name t.disk t)
    where
      go : (r : Result File) (u : Local) → u ≡ t → After (λ _ v. Uploaded v) Anywhere r u
      go (ok file) u p = rw p h
      go (raised e) u p = tt

  transfers_body_lem : Ensures (λ _ t. Uploaded t) Anywhere (transfers_body env name date) s
  unfolding transfers_body
  transfers_body_lem =
      Ensures-bind (λ _ t. t.bucket ≡ s.bucket) (λ _ t. Uploaded t) Anywhere (run_shell env.shell) _
        s run_shell_lem
        (λ _ t h.
          Ensures-bind (λ _ u. (exists name u ≡ true) × (u.bucket ≡ s.bucket)) (λ _ u. Uploaded u)
            Anywhere (require name) _ t (require_lem t h)
            (λ _ u k.
              Ensures-bind (λ _ v. Uploaded v) (λ _ v. Uploaded v) Anywhere
                (upload_to_gcs env.accepts name date) _ u (upload_lem u k)
                (λ _ v l.
                  Ensures-bind (λ _ w. Uploaded w) (λ _ w. Uploaded w) Anywhere
                    (λ w. read name w.disk w) _ v (read_lem v l) (λ _ w q. q))))

cleanup_lem :
    (b : Bool) (name : FileName) (t : Local)
    → b ≡ true
    → Ensures (λ _ u. exists name u ≡ false) (λ _ u. exists name u ≡ false) (cleanup b name) t
unfolding cleanup
cleanup_lem b name t h = rw h (cleanup-exists name t)

-- If `export_token_transfers` returns, then it names the file, which is there and was uploaded once;
-- if it raises and the file can be removed, then no such file is left.
pub export_token_transfers_lem :
    (env : UploadEnv) (start end_ : ℕ) (date : String) (s : Local)
    → env.removable ≡ true
    → Ensures
        (λ r t.
          (r.0 ≡ token_transfers start end_) × Uploaded env (token_transfers start end_) date s t)
        (λ _ t. exists (token_transfers start end_) t ≡ false)
        (export_token_transfers env start end_ date)
        s
unfolding export_token_transfers
export_token_transfers_lem env start end_ date s h =
    let name = token_transfers start end_ in
    Ensures-bind (λ _ t. Uploaded env name date s t)
      (λ r t. (r.0 ≡ name) × Uploaded env name date s t) (λ _ t. exists name t ≡ false)
      (on_exception (transfers_body env name date) (cleanup env.removable name)) _ s
      (Ensures-on_exception (λ _ t. Uploaded env name date s t) (λ _ _. Unit)
        (λ _ t. exists name t ≡ false) (transfers_body env name date) (cleanup env.removable name) s
        (transfers_body_lem env name date s) (λ _ t _. cleanup_lem env.removable name t h))
      (λ _ t u. (refl, u))
