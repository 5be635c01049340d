-- ===== src/Consumer/Redis.antt =====
-- consumer/redis_client.py: the timestamps of blocks in Redis, whose state is what it answers for a key.
use Prim.Native.String.{◌++◌ as str_append}
use text.Mathlib.TextLemmas.{append_cancel_left}
use eth_project.Prelude.{
  ℕ, ◌+◌, String, str_eq, str_eq_iff, ◌≡◌, refl, sym, ap, ◌∙◌, Option, none, some, ℤ, eqb_ℤ, ltb,
  if◌then◌else◌, Bool-cases, inl, inr,
}
use eth_project.Runtime.{Runtime, Redis, RedisLaws}

abbrev pub ttl : ℕ
ttl = 600

module _ (rt : Runtime) where
  unfoldable pub cache_block_timestamp : ℕ → ℤ → String → Redis → Redis
  cache_block_timestamp now block_number timestamp r =
      rt.setex now (str_append "block_time:" (rt.str_int block_number)) ttl timestamp r

  unfoldable pub get_block_timestamp : ℕ → ℤ → Redis → Option String
  get_block_timestamp now block_number r =
      r (str_append "block_time:" (rt.str_int block_number)) now

str_eq-append : (p a b : String) → str_eq (str_append p a) (str_append p b) ≡ str_eq a b
str_eq-append p a b = elim (Bool-cases (str_eq a b)) [
  | inl e ↦
      (str_eq_iff (str_append p a) (str_append p b)).1 (ap (str_append p) ((str_eq_iff a b).0 e))
      ∙ sym e
  | inr e ↦ elim (Bool-cases (str_eq (str_append p a) (str_append p b))) [
    | inl h ↦
        h
        ∙ sym (
            (str_eq_iff a b).1
              (append_cancel_left p a b ((str_eq_iff (str_append p a) (str_append p b)).0 h)))
    | inr h ↦ h ∙ sym e
  ]
]

-- A timestamp that was cached for a block is read back for exactly 600 seconds, whatever was cached for it
-- before, and caching it changes what is read of no other block; if Redis does what its documentation
-- says, and the two block numbers are printed alike just when they are equal.
pub get-cache_block_timestamp :
    (rt : Runtime) (t now : ℕ) (n m : ℤ) (timestamp : String) (r : Redis)
    → RedisLaws rt
    → str_eq (rt.str_int n) (rt.str_int m) ≡ eqb_ℤ n m
    → get_block_timestamp rt now m (cache_block_timestamp rt t n timestamp r) ≡ (
        if eqb_ℤ n m
        then (if ltb now (t + 600) then some timestamp else none)
        else get_block_timestamp rt now m r)
unfolding get_block_timestamp cache_block_timestamp
get-cache_block_timestamp rt t now n m timestamp r laws printed =
    laws.setex_get t now 600 (str_append "block_time:" (rt.str_int n))
      (str_append "block_time:" (rt.str_int m)) timestamp r
    ∙ rw (str_eq-append "block_time:" (rt.str_int n) (rt.str_int m), printed) refl
