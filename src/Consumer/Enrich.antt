-- ===== src/Consumer/Enrich.antt =====
-- `enrich_token_timestamp` of consumer/main.py: a transfer without a timestamp waits for the one of
-- its block, which the consumer caches in Redis when the block arrives.
pub mod Laws
use eth_project.Prelude.{
  ℕ, zero, suc, String, Bool, true, false, not, Option, none, some, str_eq, if◌then◌else◌,
}
use eth_project.Runtime.{Runtime}
use eth_project.Action.{Result, ok, raised, value_error}
use eth_project.Consumer.Models.{TokenTransferModel}

-- The answers of the successive calls of `get_block_timestamp`.
abbrev pub Reads : Type 0
Reads = ℕ → Result (Option String)

-- Python's truth value of an optional text.
abbrev pub has_text : Option String → Bool
has_text none = false
has_text (some s) = not (str_eq s "")

abbrev pub max_retries : ℕ
max_retries = 10

-- `while not cached_time and retries < 10`, by the retries that are left.
unfoldable pub retry_read : ℕ → Reads → Option String → Result (Option String)
retry_read zero reads cached = ok cached
retry_read (suc left) reads cached = elim (has_text cached) [
  | true ↦ ok cached
  | false ↦ elim (reads 0) [
    | ok next ↦ retry_read left (λ n. reads (suc n)) next
    | raised e ↦ raised e
  ]
]

-- The end of the function: the flag, and the transfer with its timestamp.
set_timestamp : Runtime → TokenTransferModel → Option String → Result (Bool × TokenTransferModel)
set_timestamp rt token none = ok (false, token)
set_timestamp rt token (some text) =
    if str_eq text "" then ok (false, token) else elim (rt.fromisoformat text) [
      | some t ↦ ok (true, record token { timestamp = some t })
      | none ↦ raised value_error
    ]

after_reads :
    Runtime → TokenTransferModel → Result (Option String) → Result (Bool × TokenTransferModel)
unfolding set_timestamp
after_reads rt token (ok cached) = set_timestamp rt token cached
after_reads rt token (raised e) = raised e

first_read : Reads → Result (Option String) → Result (Option String)
unfolding retry_read
first_read reads (ok cached) = retry_read max_retries (λ n. reads (suc n)) cached
first_read reads (raised e) = raised e

unfoldable pub enrich_token_timestamp :
    Runtime → Reads → TokenTransferModel → Result (Bool × TokenTransferModel)
unfolding first_read after_reads
enrich_token_timestamp rt reads token = elim token.timestamp [
  | some t ↦ ok (true, token)
  | none ↦ after_reads rt token (first_read reads (reads 0))
]
