-- ===== src/Backend/Caching.antt =====
-- The cached reads of backend/services/gas_service.py (`get_gas_metrics`) and token_service.py
-- (`get_trending_tokens`): a first look into Redis, a lock, a second look, and one query of the
-- database whose answer is cached for 60 seconds. The two differ in what they cache and in which
-- cached text counts as a hit. A request is two events: its first look, and what it does under the
-- lock, which one request holds at a time; only that part writes.
pub mod Stampede
use eth_project.Prelude.{
  ℕ, suc, ◌+◌, String, Bool, true, false, not, Option, none, some, List, [], ◌∷◌, ltb, str_eq,
  if◌then◌else◌,
}

-- How an answer is written to Redis and read back: `float` of the number, `model_dump_json` and
-- `json.loads` with the response model. `decode` is `none` where that raises.
pub record Codec (V : Type 0) : Type 0 where
  pub is_hit : String → Bool
  pub encode : V → String
  pub decode : String → Option V

-- `if cached_data is not None`
abbrev pub gas_hit : String → Bool
gas_hit text = true

-- `if cached_data`
abbrev pub trending_hit : String → Bool
trending_hit text = not (str_eq text "")

-- The key of one kind of request in Redis, with its expiry, and the number of database queries.
pub record Shared : Type 0 where
  pub cell : Option (String × ℕ)
  pub queries : ℕ

-- What one request meets: whether Redis is connected, the second of each look and of the write,
-- whether those calls return, and the answer of the
-- database as the response is built from it.
pub record Request (V : Type 0) : Type 0 where
  pub redis : Bool
  pub first_look : ℕ × Bool
  pub second_look : ℕ × Bool
  pub write : ℕ × Bool
  pub database : Option V

-- An answer, or `DatabaseFetchError`.
pub data Reply (V : Type 0) : Type 0 where
  answer : V → Reply V
  fetch_error : Reply V

pub data Look (V : Type 0) : Type 0 where
  found : V → Look V
  miss : Look V
  broken : Look V

abbrev pub cache_seconds : ℕ
cache_seconds = 60

module _ {V : Type 0} (codec : Codec V) where
  open codec use {is_hit, encode, decode}

  abbrev pub decoded_look : Option V → Look V
  decoded_look none = broken
  decoded_look (some v) = found v

  abbrev pub read_cell : ℕ → Option (String × ℕ) → Look V
  read_cell now none = miss
  read_cell now (some (text, expires)) =
      if ltb now expires then (if is_hit text then decoded_look (decode text) else miss) else miss

  unfoldable pub look : Bool → ℕ × Bool → Option (String × ℕ) → Look V
  look false at cell = miss
  look true (now, false) cell = broken
  look true (now, true) cell = read_cell now cell

  abbrev pub store : Bool → ℕ × Bool → V → Shared → Reply V × Shared
  store false at v s = (answer v, s)
  store true (now, false) v s = (fetch_error, s)
  store true (now, true) v s = (answer v, record s { cell = some (encode v, now + cache_seconds) })

  abbrev pub load : Request V → Option V → Shared → Reply V × Shared
  load r none s = (fetch_error, record s { queries = suc s.queries })
  load r (some v) s = store r.redis r.write v (record s { queries = suc s.queries })

  abbrev pub after_look : Request V → Look V → Shared → Reply V × Shared
  after_look r (found v) s = (answer v, s)
  after_look r broken s = (fetch_error, s)
  after_look r miss s = load r r.database s

  -- The block under `async with lock`.
  unfoldable pub locked : Request V → Shared → Reply V × Shared
  unfolding look
  locked r s = after_look r (look r.redis r.second_look s.cell) s

  abbrev pub after_first : Request V → Look V → Shared → Reply V × Shared
  unfolding locked
  after_first r (found v) s = (answer v, s)
  after_first r broken s = (fetch_error, s)
  after_first r miss s = locked r s

  -- One request that nothing interrupts.
  unfoldable pub get_cached : Request V → Shared → Reply V × Shared
  unfolding look after_first
  get_cached r s = after_first r (look r.redis r.first_look s.cell) s

  -- Requests whose first look missed, one after another under the lock.
  unfoldable pub waiters : List (Request V) → Shared → List (Reply V) × Shared
  unfolding locked
  waiters [] s = ([], s)
  waiters (r ∷ rs) s =
      let (reply, s') = locked r s in let (replies, t) = waiters rs s' in (reply ∷ replies, t)
