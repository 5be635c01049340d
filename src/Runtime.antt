-- ===== src/Runtime.antt =====
-- What the consumer takes from Python's runtime, from pydantic and from redis-py, none of it in this
-- repository: the text codec of JSON, pydantic's coercion of one field, `datetime`, and `setex`. A datetime is the count
-- of microseconds from 1970-01-01 UTC. `none` is the exception that the call raises.
use eth_project.Prelude.{
  ℕ, ◌+◌, String, str_eq, ltb, if◌then◌else◌, none, ◌≡◌, ◌≢◌, Option, some, ℤ,
}
use eth_project.Json.{Json}

abbrev pub DateTime : Type 0
DateTime = ℤ

-- What `get` of a key answers at a second.
abbrev pub Redis : Type 0
Redis = String → ℕ → Option String

pub record Runtime : Type 0 where
  pub loads : String → Option Json  -- json.loads(raw.decode("utf-8"))
  pub dumps : Json → String  -- json.dumps(value, default=str)
  pub as_str : Json → Option String  -- pydantic, a field of type str
  pub as_int : Json → Option ℤ  -- pydantic, a field of type int
  pub as_datetime : Json → Option DateTime  -- pydantic, a field of type datetime
  pub fromtimestamp : Json → Option DateTime  -- datetime.fromtimestamp(float(v), tz=utc)
  pub isoformat : DateTime → String
  pub fromisoformat : String → Option DateTime
  pub str_int : ℤ → String  -- an int in an f-string
  pub setex : ℕ → String → ℕ → String → Redis → Redis  -- at a second: the key, its time, its value

-- The documentation of `datetime.fromisoformat`: it reads back what `isoformat` wrote, and that
-- is never the empty text.
pub record IsoLaws (rt : Runtime) : Type 0 where
  pub read_back : (t : DateTime) → rt.fromisoformat (rt.isoformat t) ≡ some t
  pub not_empty : (t : DateTime) → rt.isoformat t ≢ ""

-- The documentation of SETEX: the value is there until its time is over, whatever was there, and the other
-- keys keep theirs.
pub record RedisLaws (rt : Runtime) : Type 0 where
  pub setex_get :
      (t now time : ℕ) (key other value : String) (r : Redis)
      → rt.setex t key time value r other now ≡ (
          if str_eq key other
          then (if ltb now (t + time) then some value else none)
          else r other now)
