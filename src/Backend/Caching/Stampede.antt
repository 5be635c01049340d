-- ===== src/Backend/Caching/Stampede.antt =====
-- The lock and the second look: many requests that miss at once cost one query.
use eth_project.Prelude.{ℕ, suc, ◌+◌, ◌<◌, ◌≡◌, refl, true, some, List, [], ◌∷◌, map, All, arith}
use eth_project.Backend.Caching.{
  Codec, Shared, Request, answer, found, miss, read_cell, look, locked, waiters, get_cached,
}

module _ {V : Type 0} (codec : Codec V) where
  -- Redis is connected, and it answers the second look of the request before second `t`.
  pub record Answered (t : ℕ) (r : Request V) : Type 0 where
    pub connected : r.redis ≡ true
    pub read : r.second_look.1 ≡ true
    pub early : r.second_look.0 < t

  read_fresh :
      (v : V) (now t : ℕ)
      → codec.is_hit (codec.encode v) ≡ true
      → codec.decode (codec.encode v) ≡ some v
      → now < t
      → read_cell codec now (some (codec.encode v, t)) ≡ found v
  read_fresh v now t h d l = ground (arith, h, d)

  locked_hit :
      (v : V) (t : ℕ) (r : Request V) (s : Shared)
      → codec.is_hit (codec.encode v) ≡ true
      → codec.decode (codec.encode v) ≡ some v
      → s.cell ≡ some (codec.encode v, t)
      → Answered t r
      → locked codec r s ≡ (answer v, s)
  unfolding locked look
  locked_hit v t r s h d c a =
      rw (a.connected, a.read, c) (rw (read_fresh v r.second_look.0 t h d a.early) refl)

  waiters_hit :
      (v : V) (t : ℕ) (rs : List (Request V)) (s : Shared)
      → codec.is_hit (codec.encode v) ≡ true
      → codec.decode (codec.encode v) ≡ some v
      → s.cell ≡ some (codec.encode v, t)
      → All (Answered t) rs
      → waiters codec rs s ≡ (map (λ r. answer v) rs, s)
  unfolding waiters
  waiters_hit v t [] s h d c a = refl
  waiters_hit v t (r ∷ rs) s h d c a =
      rw (locked_hit v t r s h d c a.0) (rw (waiters_hit v t rs s h d c a.1) refl)

  -- The first of the requests to get the lock: its second look misses, the database answers `v`, and
  -- the write to Redis returns.
  pub record Loads (v : V) (r : Request V) (s : Shared) : Type 0 where
    pub connected : r.redis ≡ true
    pub missing : look codec r.redis r.second_look s.cell ≡ miss
    pub written : r.write.1 ≡ true
    pub queried : r.database ≡ some v

  abbrev after_load : V → Request V → Shared → Shared
  after_load v r s = record s {
    cell = some (codec.encode v, r.write.0 + 60);
    queries = suc s.queries;
  }

  locked_load :
      (v : V) (r : Request V) (s : Shared)
      → Loads v r s
      → locked codec r s ≡ (answer v, after_load v r s)
  unfolding locked
  locked_load v r s h = rw (h.missing, h.queried) (rw (h.connected, h.written) refl)

  -- Requests that all missed at their first look: when the first of them that holds the lock loads
  -- `v`, and each of the others looks again before the 60 seconds are over, then the database is
  -- queried once and every request is answered by `v`. That the text written for `v` is read back
  -- as `v` is assumed.
  pub stampede :
      (v : V) (r : Request V) (rs : List (Request V)) (s : Shared)
      → codec.is_hit (codec.encode v) ≡ true
      → codec.decode (codec.encode v) ≡ some v
      → Loads v r s
      → All (Answered (r.write.0 + 60)) rs
      → ((waiters codec (r ∷ rs) s).0 ≡ map (λ q. answer v) (r ∷ rs))
        × ((waiters codec (r ∷ rs) s).1.queries ≡ suc s.queries)
  unfolding waiters
  stampede v r rs s h d l a =
      rw (locked_load v r s l)
        (rw (waiters_hit v (r.write.0 + 60) rs (after_load v r s) h d refl a) (refl, refl))

  -- A request alone, after another one loaded `v` less than 60 seconds ago, gets `v` without a query.
  pub get_within :
      (v : V) (r q : Request V) (s : Shared)
      → codec.is_hit (codec.encode v) ≡ true
      → codec.decode (codec.encode v) ≡ some v
      → Loads v r s
      → q.redis ≡ true
      → q.first_look.1 ≡ true
      → q.first_look.0 < r.write.0 + 60
      → get_cached codec q (locked codec r s).1 ≡ (answer v, (locked codec r s).1)
  unfolding get_cached look
  get_within v r q s h d l c f e =
      rw (locked_load v r s l)
        (rw (c, f) (rw (read_fresh v q.first_look.0 (r.write.0 + 60) h d e) refl))
