-- ===== src/RateLimit/Laws.antt =====
-- What the limiter of apps/web/src/server/http/rate-limit.ts lets through.
use semantius_idp.Prelude.{
  All, All-map, Bool-cases, List, Option, Option-cases, Text, [], ap, if◌then◌else◌, inl, inr, leb,
  none, refl, some, ℕ, ◌*◌, ◌+◌, ◌-◌, ◌<◌, ◌∙◌, ◌∷◌, ◌≡◌, ◌≤◌, arith,
}
use semantius_idp.RateLimit.{
  Bucket, RateLimitRule, window_ms, prefixed, touch, find_bucket, upsert, decide, consume, peek,
  admitted,
}
use semantius_idp.RateLimit.Buckets.{find_bucket-upsert-none, find_bucket-upsert-some}

module _ (bucket : Text) (rule : RateLimitRule) where
  -- One request of a run, once the row that its statement returns is known.
  admitted-step :
      (now : ℕ) (times : List ℕ) (rows : List Bucket) (row : Bucket)
      → find_bucket (prefixed bucket) (upsert (prefixed bucket) (window_ms rule) now rows)
        ≡ some row
      → admitted (some rows) bucket rule (now ∷ times) ≡ (
          if leb row.count rule.max
          then 1
            + admitted (some (upsert (prefixed bucket) (window_ms rule) now rows)) bucket rule times
          else admitted
              (some (upsert (prefixed bucket) (window_ms rule) now rows))
              bucket
              rule
              times)
  unfolding admitted consume decide
  admitted-step now times rows row e =
      rw e (elim (Bool-cases (leb row.count rule.max)) [ inl h ↦ rw h refl | inr h ↦ rw h refl ])

  pub touch_within :
      (now : ℕ) (row : Bucket)
      → now < row.last_request + window_ms rule
      → touch (window_ms rule) now row
        ≡ record { key = row.key; count = row.count + 1; last_request = row.last_request }
  unfolding touch
  touch_within now row h = ground (arith, h)

  pub touch_past :
      (now : ℕ) (row : Bucket)
      → row.last_request + window_ms rule ≤ now
      → touch (window_ms rule) now row ≡ record { key = row.key; count = 1; last_request = now }
  unfolding touch
  touch_past now row h = ground (arith, h)

  -- Inside its window a bucket lets through what is left of the maximum, and no more.
  admitted-within :
      (times : List ℕ) (rows : List Bucket) (row : Bucket)
      → find_bucket (prefixed bucket) rows ≡ some row
      → All (λ now. now < row.last_request + window_ms rule) times
      → admitted (some rows) bucket rule times ≤ rule.max - row.count
  admitted-within [] rows row e h = unfold admitted in omega arith
  admitted-within (now ∷ times) rows row e (h, hs) =
      let found =
        find_bucket-upsert-some (prefixed bucket) (window_ms rule) now rows row e
        ∙ ap some (touch_within now row h) in
      let rest =
        admitted-within times (upsert (prefixed bucket) (window_ms rule) now rows) _ found hs in
      ground (arith, admitted-step now times rows _ found, rest)

  -- Within any stretch of one window's length, a bucket with a row lets through at most what was
  -- left of it and one fresh maximum.
  admitted-across :
      (start : ℕ) (times : List ℕ) (rows : List Bucket) (row : Bucket)
      → find_bucket (prefixed bucket) rows ≡ some row
      → All (λ now. (start ≤ now) × (now < start + window_ms rule)) times
      → admitted (some rows) bucket rule times ≤ (rule.max - row.count) + rule.max
  admitted-across start [] rows row e h = unfold admitted in omega arith
  admitted-across start (now ∷ times) rows row e ((lo, hi), hs) =
      elim (Bool-cases (leb (row.last_request + window_ms rule) now)) [
        | inr h ↦
            let found =
              find_bucket-upsert-some (prefixed bucket) (window_ms rule) now rows row e
              ∙ ap some (touch_within now row (ground (arith, h))) in
            let rest =
              admitted-across start times (upsert (prefixed bucket) (window_ms rule) now rows) _
                found hs in
            ground (arith, admitted-step now times rows _ found, rest)
        | inl h ↦
            let found =
              find_bucket-upsert-some (prefixed bucket) (window_ms rule) now rows row e
              ∙ ap some (touch_past now row (ground (arith, h))) in
            let rest =
              admitted-within times (upsert (prefixed bucket) (window_ms rule) now rows) _ found
                (All-map (λ t (a, b). omega (arith, a, b, lo)) times hs) in
            ground (arith, admitted-step now times rows _ found, rest)
      ]

  -- Whatever the table holds, within a stretch of one window's length a bucket lets through at
  -- most twice its maximum.
  pub at_most_twice :
      (start : ℕ) (times : List ℕ) (rows : List Bucket)
      → All (λ now. (start ≤ now) × (now < start + window_ms rule)) times
      → admitted (some rows) bucket rule times ≤ 2 * rule.max
  at_most_twice start [] rows h = unfold admitted in omega arith
  at_most_twice start (now ∷ times) rows (h, hs) =
      elim (Option-cases (find_bucket (prefixed bucket) rows)) [
        | inr (row, e) ↦ omega (arith, admitted-across start (now ∷ times) rows row e (h, hs))
        | inl e ↦
            let found = find_bucket-upsert-none (prefixed bucket) (window_ms rule) now rows e in
            let rest =
              admitted-within times (upsert (prefixed bucket) (window_ms rule) now rows) _ found
                (All-map (λ t (a, b). omega (arith, a, b, h.0)) times hs) in
            ground (arith, admitted-step now times rows _ found, rest)
      ]

  -- With a maximum of at least one, `peek` foretells what `consume` would say at that moment.
  pub peek-consume :
      (table : Option (List Bucket)) (now : ℕ)
      → 1 ≤ rule.max
      → peek table now bucket rule ≡ (consume table now bucket rule).decision
  unfolding peek consume decide
  peek-consume none now some_room = refl
  peek-consume (some rows) now some_room =
      elim (Option-cases (find_bucket (prefixed bucket) rows)) [
        | inl e ↦
            rw (e, find_bucket-upsert-none (prefixed bucket) (window_ms rule) now rows e)
              (ground (arith, some_room))
        | inr (row, e) ↦
            rw (e, find_bucket-upsert-some (prefixed bucket) (window_ms rule) now rows row e)
              (elim (Bool-cases (leb (row.last_request + window_ms rule) now)) [
                | inl h ↦ rw (touch_past now row (ground (arith, h)), h) (ground (arith, some_room))
                | inr h ↦ rw (touch_within now row (ground (arith, h)), h) (ground arith)
              ])
      ]
