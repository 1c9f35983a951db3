-- ===== src/RateLimit/Retry.antt =====
-- What a refused caller is told, and what a request leaves as it was:
-- apps/web/src/server/http/rate-limit.ts.
use semantius_idp.Prelude.{
  List, Option, Option-cases, Text, ap, false, inl, inr, none, refl, some, sym, ℕ, ◌*◌, ◌+◌, ◌∙◌,
  ◌≡◌, ◌≢◌, ◌≤◌, arith,
}
use semantius_idp.RateLimit.{
  Bucket, RateLimitRule, window_ms, prefixed, find_bucket, upsert, retry_seconds, decide, consume,
  peek, peek_row, allow, reset,
}
use semantius_idp.RateLimit.Buckets.{
  find_bucket-upsert-none, find_bucket-upsert-some, find_bucket-upsert-other, prefixed-injective,
  find_bucket-keep,
}
use semantius_idp.RateLimit.Laws.{touch_past}

-- The seconds that a refusal names reach the end of the window.
retry_reaches : (span now last : ℕ) → last + span ≤ now + retry_seconds span now last * 1000
unfolding retry_seconds
retry_reaches span now last = ground arith

module _ (bucket : Text) (rule : RateLimitRule) where
  decided :
      (rows : List Bucket) (now : ℕ) (row : Bucket)
      → find_bucket (prefixed bucket) (upsert (prefixed bucket) (window_ms rule) now rows)
        ≡ some row
      → (consume (some rows) now bucket rule).decision ≡ decide rule now (some row)
  unfolding consume
  decided rows now row e = rw e refl

  kept_table :
      (rows : List Bucket) (now : ℕ)
      → (consume (some rows) now bucket rule).table
        ≡ some (upsert (prefixed bucket) (window_ms rule) now rows)
  unfolding consume
  kept_table rows now = refl

  allowed_row : (now : ℕ) (row : Bucket) → row.count ≤ rule.max → decide rule now (some row) ≡ allow
  unfolding decide
  allowed_row now row h = ground (arith, h)

  refused_row :
      (now : ℕ) (row : Bucket)
      → (decide rule now (some row)).allowed ≡ false
      → (decide rule now (some row)).retry_after
        ≡ retry_seconds (window_ms rule) now row.last_request
  unfolding decide
  refused_row now row h = ground (arith, h)

  -- A refused row's window is over when the caller has waited.
  allowed_later :
      (rows : List Bucket) (now later : ℕ) (row : Bucket)
      → 1 ≤ rule.max
      → find_bucket (prefixed bucket) (upsert (prefixed bucket) (window_ms rule) now rows)
        ≡ some row
      → (consume (some rows) now bucket rule).decision.allowed ≡ false
      → now + (consume (some rows) now bucket rule).decision.retry_after * 1000 ≤ later
      → (consume (consume (some rows) now bucket rule).table later bucket rule).decision ≡ allow
  allowed_later rows now later row some_room e refused waited =
      let retry = refused_row now row (rw (decided rows now row e) at refused) in
      let long = rw (decided rows now row e, retry) at waited in
      let over : row.last_request + window_ms rule ≤ later =
        omega (arith, retry_reaches (window_ms rule) now row.last_request, long) in
      ap (λ t. (consume t later bucket rule).decision) (kept_table rows now)
      ∙ (decided (upsert (prefixed bucket) (window_ms rule) now rows) later _ (
            find_bucket-upsert-some (prefixed bucket) (window_ms rule) later _ row e
            ∙ ap some (touch_past bucket rule later row over))
          ∙ allowed_row later _ some_room)

  -- A refused caller that waits for the seconds it was told is let through, if the maximum is at
  -- least one and nobody else asks in between.
  pub retry_allowed :
      (rows : List Bucket) (now later : ℕ)
      → 1 ≤ rule.max
      → (consume (some rows) now bucket rule).decision.allowed ≡ false
      → now + (consume (some rows) now bucket rule).decision.retry_after * 1000 ≤ later
      → (consume (consume (some rows) now bucket rule).table later bucket rule).decision ≡ allow
  retry_allowed rows now later some_room refused waited =
      elim (Option-cases (find_bucket (prefixed bucket) rows)) [
        | inl e ↦
            allowed_later rows now later _ some_room
              (find_bucket-upsert-none (prefixed bucket) (window_ms rule) now rows e) refused waited
        | inr (row, e) ↦
            allowed_later rows now later _ some_room
              (find_bucket-upsert-some (prefixed bucket) (window_ms rule) now rows row e) refused
              waited
      ]

  -- What one bucket consumes leaves every other bucket as it was.
  pub other_bucket :
      (table : Option (List Bucket)) (now later : ℕ) (other : Text) (limit : RateLimitRule)
      → other ≢ bucket
      → peek (consume table now bucket rule).table later other limit ≡ peek table later other limit
  unfolding peek consume
  other_bucket none now later other limit differs = refl
  other_bucket (some rows) now later other limit differs = ap (peek_row limit later) (
      find_bucket-upsert-other (prefixed bucket) (prefixed other) (window_ms rule) now rows
        (λ e. differs (prefixed-injective other bucket (sym e))))

-- A bucket that is forgotten lets its next request through.
pub peek-reset :
    (table : Option (List Bucket)) (now : ℕ) (bucket : Text) (rule : RateLimitRule)
    → peek (reset bucket table) now bucket rule ≡ allow
unfolding peek reset
peek-reset none now bucket rule = refl
peek-reset (some rows) now bucket rule = rw (find_bucket-keep (prefixed bucket) rows) refl
