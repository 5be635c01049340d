-- ===== src/Consumer/Enrich/Laws.antt =====
-- Which timestamp a transfer gets.
use eth_project.Prelude.{
  ℕ, zero, suc, ◌<◌, String, ◌≡◌, refl, ◌∙◌, true, false, Option, none, some, arith, str_eq,
}
use eth_project.Runtime.{Runtime, DateTime}
use eth_project.Action.{ok}
use eth_project.Consumer.Models.{TokenTransferModel}
use eth_project.Consumer.Enrich.{
  Reads, has_text, retry_read, first_read, set_timestamp, after_reads, enrich_token_timestamp,
}

-- The first read with a text, within the first `k` reads, is number `i`.
pub record FirstText (reads : Reads) (k i : ℕ) (text : String) : Type 0 where
  pub within : i < k
  pub found : reads i ≡ ok (some text)
  pub proper : str_eq text "" ≡ false
  pub before : (j : ℕ) → j < i → (c : Option String) × (reads j ≡ ok c) × (has_text c ≡ false)

retry_read_text :
    (left : ℕ) (reads : Reads) (cached : Option String)
    → has_text cached ≡ true
    → retry_read left reads cached ≡ ok cached
unfolding retry_read
retry_read_text zero reads cached h = refl
retry_read_text (suc left) reads cached h = ground arith

retry_read_next :
    (left : ℕ) (reads : Reads) (cached next : Option String)
    → has_text cached ≡ false
    → reads 0 ≡ ok next
    → retry_read (suc left) reads cached ≡ retry_read left (λ n. reads (suc n)) next
unfolding retry_read
retry_read_next left reads cached next h e = rw (h, retry_read) (rw (e, retry_read))

retry_read_found :
    (left : ℕ) (reads : Reads) (cached : Option String) (i : ℕ) (text : String)
    → has_text cached ≡ false
    → FirstText reads left i text
    → retry_read left reads cached ≡ ok (some text)
retry_read_found zero reads cached i text h f = absurd (omega (arith, f.within))
retry_read_found (suc left) reads cached zero text h f =
    retry_read_next left reads cached (some text) h f.found
    ∙ retry_read_text left (λ n. reads (suc n)) (some text) (rw f.proper)
retry_read_found (suc left) reads cached (suc i) text h f =
    let (c, e, b) = f.before zero (omega arith) in
    retry_read_next left reads cached c h e
    ∙ retry_read_found left (λ n. reads (suc n)) c i text b
        (record {
          within = omega (arith, f.within);
          found = f.found;
          proper = f.proper;
          before = λ j lt. f.before (suc j) (omega arith);
        })

-- No text within the first `k` reads.
abbrev pub NoText : Reads → ℕ → Type 0
NoText reads k = (j : ℕ) → j < k → (c : Option String) × (reads j ≡ ok c) × (has_text c ≡ false)

retry_read_none :
    (left : ℕ) (reads : Reads) (cached : Option String)
    → has_text cached ≡ false
    → NoText reads left
    → (c : Option String) × (retry_read left reads cached ≡ ok c) × (has_text c ≡ false)
unfolding retry_read
retry_read_none zero reads cached h f = (cached, refl, h)
retry_read_none (suc left) reads cached h f =
    let (next, e, b) = f zero (omega arith) in
    let (c, p, q) =
      retry_read_none left (λ n. reads (suc n)) next b (λ j lt. f (suc j) (omega arith)) in
    (c, retry_read_next left reads cached next h e ∙ p, q)

first_read_found :
    (reads : Reads) (i : ℕ) (text : String)
    → FirstText reads 11 i text
    → first_read reads (reads 0) ≡ ok (some text)
unfolding first_read
first_read_found reads zero text f =
    rw f.found (retry_read_text 10 (λ n. reads (suc n)) (some text) (rw f.proper))
first_read_found reads (suc i) text f =
    let (c, e, b) = f.before zero (omega arith) in
    rw e (
      retry_read_found 10 (λ n. reads (suc n)) c i text b
        (record {
          within = omega (arith, f.within);
          found = f.found;
          proper = f.proper;
          before = λ j lt. f.before (suc j) (omega arith);
        }))

module _ (rt : Runtime) (reads : Reads) (token : TokenTransferModel) where
  -- A transfer that has a timestamp keeps it, and Redis is not asked.
  pub enrich_present :
      (t : DateTime)
      → token.timestamp ≡ some t
      → enrich_token_timestamp rt reads token ≡ ok (true, token)
  unfolding enrich_token_timestamp
  enrich_present t h = ground arith

  enrich_missing :
      token.timestamp ≡ none
      → enrich_token_timestamp rt reads token ≡ after_reads rt token (first_read reads (reads 0))
  unfolding enrich_token_timestamp
  enrich_missing h = ground arith

  -- A transfer without a timestamp gets the one of the first of eleven reads that has a text, where
  -- the reads before it return and the text is a time in ISO format.
  pub enrich_found :
      (i : ℕ) (text : String) (t : DateTime)
      → token.timestamp ≡ none
      → FirstText reads 11 i text
      → rt.fromisoformat text ≡ some t
      → enrich_token_timestamp rt reads token ≡ ok (true, record token { timestamp = some t })
  unfolding after_reads
  enrich_found i text t h f iso =
      enrich_missing h ∙ rw (first_read_found reads i text f) (rw f.proper (rw iso))

  -- A transfer without a timestamp is dropped where each of eleven reads returns and none has a text.
  pub enrich_dropped :
      token.timestamp ≡ none
      → NoText reads 11
      → enrich_token_timestamp rt reads token ≡ ok (false, token)
  unfolding after_reads first_read
  enrich_dropped h f =
      let (c, e, b) = f zero (omega arith) in
      let (d, p, q) =
        retry_read_none 10 (λ n. reads (suc n)) c b (λ j lt. f (suc j) (omega arith)) in
      enrich_missing h ∙ rw e (rw p (no_text d q))
    where
      no_text :
          (d : Option String) → has_text d ≡ false → set_timestamp rt token d ≡ ok (false, token)
      no_text none q = refl
      no_text (some text) q = ground (arith, q)
