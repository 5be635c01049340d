-- ===== src/Lake/Contracts.antt =====
-- `export_contracts` of storage/etl/contracts.py. The addresses are a Python set, which is written in
-- an order of its own: `order` is that order, and `address_of` reads `token_address` of a line.
use eth_project.Prelude.{
  ℕ, String, str_eq, Bool, Option, none, some, List, [], ◌∷◌, any_of, if◌then◌else◌,
}
use eth_project.Action.{
  Action, Exception, Result, ok, raised, os_error, pure, call, finally, ◌>>=◌, ◌>>◌,
}
use eth_project.Lake.Files.{
  FileName, contracts, addresses, Local, read, run_shell, require, cleanup,
}
use eth_project.Lake.Extract.{or_json_error}
use eth_project.Lake.Transfers.{UploadEnv, run_and_upload}
use eth_project.Lake.Stored.{Stores, Keeps, Stores-finally, Stores-bind}
use eth_project.Lake.Stored.Primitives.{Keeps-cleanup, Stores-upload}

pub record ContractsEnv : Type 0 where
  pub address_of : String → Option String
  pub order : List String → List String
  pub text_size : List String → ℕ
  pub writable : Bool
  pub upload : UploadEnv
  pub removable : FileName → Bool

-- `set.add`
unfoldable pub add_address : String → List String → List String
add_address a seen = if any_of (str_eq a) seen then seen else a ∷ seen

-- The loop over the lines; `none` where one of them raises.
unfoldable pub unique_addresses : (String → Option String) → List String → Option (List String)
unique_addresses address_of [] = some []
unique_addresses address_of (line ∷ lines) =
    let rest = unique_addresses address_of lines in
    if str_eq line "" then rest else elim (address_of line) [
      | none ↦ none
      | some a ↦ elim rest [ none ↦ none | some seen ↦ some (add_address a seen) ]
    ]

unfoldable pub extract_unique_addresses : ContractsEnv → FileName → Action Local FileName
extract_unique_addresses env transfer_file = do
  file ← (λ s. read transfer_file s.disk s)
  found ← (λ s. (or_json_error (unique_addresses env.address_of file.lines), s))
  call env.writable os_error (λ s. record s {
    disk =
        (
          addresses transfer_file,
          record { lines = env.order found; size = env.text_size (env.order found) },
        )
        ∷ s.disk;
  })
  pure (addresses transfer_file)

-- The `finally`; `addr_file` is empty where the extraction raised.
unfoldable pub contracts_cleanup :
    ContractsEnv → FileName → Option FileName → Action Local (Unit {0})
contracts_cleanup env transfer_file none s = cleanup (env.removable transfer_file) transfer_file s
contracts_cleanup env transfer_file (some addr_file) s =
    cleanup (env.removable addr_file) addr_file
      (cleanup (env.removable transfer_file) transfer_file s).1

unfoldable pub after_addresses :
    ContractsEnv → FileName → FileName → String → Result FileName → Action Local (Unit {0})
after_addresses env transfer_file contract_file date (ok addr_file) =
    finally (run_and_upload env.upload contract_file date)
      (contracts_cleanup env transfer_file (some addr_file))
after_addresses env transfer_file contract_file date (raised e) =
    finally (λ s. (raised e, s)) (contracts_cleanup env transfer_file none)

unfoldable pub export_contracts : ContractsEnv → FileName → ℕ → ℕ → String → Action Local (Unit {0})
export_contracts env transfer_file start end_ date s =
    let (r, t) = extract_unique_addresses env transfer_file s in
    after_addresses env transfer_file (contracts start end_) date r t

module _ (env : ContractsEnv) (transfer_file : FileName) (name : FileName) (date : String) where
  Keeps-contracts_cleanup :
      (addr_file : Option FileName)
      → Keeps name date (contracts_cleanup env transfer_file addr_file)
  unfolding contracts_cleanup Keeps
  Keeps-contracts_cleanup none s h =
      Keeps-cleanup name date (env.removable transfer_file) transfer_file s h
  Keeps-contracts_cleanup (some addr_file) s h =
      Keeps-cleanup name date (env.removable addr_file) addr_file _
        (Keeps-cleanup name date (env.removable transfer_file) transfer_file s h)

  Stores-run_and_upload : Stores name date (run_and_upload env.upload name date)
  unfolding run_and_upload
  Stores-run_and_upload =
      Stores-finally name date _ _
        (Stores-bind name date (run_shell env.upload.shell) _ (λ _.
          Stores-bind name date (require name) _ (λ _. Stores-upload name date env.upload.accepts)))
        (Keeps-cleanup name date env.upload.removable name)

  Stores-failure : (e : Exception) → Stores name date {A = Unit {0}} (λ s. (raised e, s))
  unfolding Stores
  Stores-failure e s = tt

  Stores-after_addresses :
      (r : Result FileName) → Stores name date (after_addresses env transfer_file name date r)
  unfolding after_addresses
  Stores-after_addresses (ok addr_file) =
      Stores-finally name date _ _ Stores-run_and_upload (Keeps-contracts_cleanup (some addr_file))
  Stores-after_addresses (raised e) =
      Stores-finally name date _ _ (Stores-failure e) (Keeps-contracts_cleanup none)

-- An export of contracts that returns has its file in the bucket.
pub Stores-export_contracts :
    (env : ContractsEnv) (transfer_file : FileName) (start end_ : ℕ) (date : String)
    → Stores (contracts start end_) date (export_contracts env transfer_file start end_ date)
unfolding export_contracts Stores
Stores-export_contracts env transfer_file start end_ date s =
    Stores-after_addresses env transfer_file (contracts start end_) date
      (extract_unique_addresses env transfer_file s).0
      (extract_unique_addresses env transfer_file s).1
