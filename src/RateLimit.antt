-- ===== src/RateLimit.antt =====
-- The fixed-window limiter of apps/web/src/server/http/rate-limit.ts. The column `count` is an int4 of
-- the database: past 2147483647 hits within a window its update fails, and `consume` then allows the
-- request, where the model counts on.
pub mod Buckets
pub mod Laws
pub mod Retry
use semantius_idp.Prelude.{
  keep, not, ℕ, ◌+◌, ◌*◌, ◌-◌, ◌/◌, Text, codes, text_eq, leb, ltb, Bool, true, false, Option, none,
  some, if◌then◌else◌, List, [], ◌∷◌, ◌++◌,
}

-- A row of the `rate_limit` table
pub record Bucket : Type 0 where
  pub key : Text
  pub count : ℕ
  pub last_request : ℕ

-- `RateLimitRule`
pub record RateLimitRule : Type 0 where
  pub window : ℕ
  pub max : ℕ

-- `RateLimitDecision`
pub record RateLimitDecision : Type 0 where
  pub allowed : Bool
  pub retry_after : ℕ

abbrev pub window_ms : RateLimitRule → ℕ
window_ms rule = rule.window * 1000

-- `KEY_PREFIX`
abbrev pub prefixed : Text → Text
prefixed bucket = codes "idp:" ++ bucket

-- The `set` of the conflict clause
unfoldable pub touch : ℕ → ℕ → Bucket → Bucket
touch span now row =
    if leb (row.last_request + span) now
    then record { key = row.key; count = 1; last_request = now }
    else record { key = row.key; count = row.count + 1; last_request = row.last_request }

unfoldable pub find_bucket : Text → List Bucket → Option Bucket
find_bucket key [] = none
find_bucket key (row ∷ rows) = if text_eq row.key key then some row else find_bucket key rows

-- The one statement: insert, or update the row that has the key
unfoldable pub upsert : Text → ℕ → ℕ → List Bucket → List Bucket
unfolding touch
upsert key span now [] = record { key = key; count = 1; last_request = now } ∷ []
upsert key span now (row ∷ rows) =
    if text_eq row.key key then touch span now row ∷ rows else row ∷ upsert key span now rows

abbrev pub allow : RateLimitDecision
allow = record { allowed = true; retry_after = 0 }

abbrev at_least_one : ℕ → ℕ
at_least_one n = if leb 1 n then n else 1

-- `Math.max(1, Math.ceil((windowMs - elapsed) / 1000))`; below zero the ceiling is at most zero.
unfoldable pub retry_seconds : ℕ → ℕ → ℕ → ℕ
retry_seconds span now last = at_least_one ((last + span - now + 999) / 1000)

abbrev pub refuse_until : ℕ → ℕ → ℕ → RateLimitDecision
refuse_until span now last = record { allowed = false; retry_after = retry_seconds span now last }

-- What `consume` says of the row that the statement returned
unfoldable pub decide : RateLimitRule → ℕ → Option Bucket → RateLimitDecision
decide rule now none = allow
decide rule now (some row) =
    if leb row.count rule.max then allow else refuse_until (window_ms rule) now row.last_request

-- The table with the decision; no table stands for a database that cannot be reached.
pub record Consumed : Type 0 where
  pub table : Option (List Bucket)
  pub decision : RateLimitDecision

-- `consume`
unfoldable pub consume : Option (List Bucket) → ℕ → Text → RateLimitRule → Consumed
unfolding upsert decide
consume none now bucket rule = record { table = none; decision = allow }
consume (some rows) now bucket rule =
    let after = upsert (prefixed bucket) (window_ms rule) now rows in
    record { table = some after; decision = decide rule now (find_bucket (prefixed bucket) after) }

abbrev pub peek_row : RateLimitRule → ℕ → Option Bucket → RateLimitDecision
peek_row rule now none = allow
peek_row rule now (some row) =
    if leb (row.last_request + window_ms rule) now
    then allow
    else if ltb row.count rule.max
    then allow
    else refuse_until (window_ms rule) now row.last_request

-- `peek`
unfoldable pub peek : Option (List Bucket) → ℕ → Text → RateLimitRule → RateLimitDecision
peek none now bucket rule = allow
peek (some rows) now bucket rule = peek_row rule now (find_bucket (prefixed bucket) rows)

-- Requests one after another on one bucket, at the given times: how many were allowed.
unfoldable pub admitted : Option (List Bucket) → Text → RateLimitRule → List ℕ → ℕ
admitted table bucket rule [] = 0
admitted table bucket rule (now ∷ times) =
    let result = consume table now bucket rule in
    let rest = admitted result.table bucket rule times in
    if result.decision.allowed then 1 + rest else rest

-- `reset`; it throws where the database cannot be reached, and there is no table then.
unfoldable pub reset : Text → Option (List Bucket) → Option (List Bucket)
reset bucket none = none
reset bucket (some rows) = some (keep (λ row. not (text_eq row.key (prefixed bucket))) rows)

-- `tooManyRequests`: the status and `retry-after`; the decision's seconds are whole.
unfoldable pub too_many_requests : RateLimitDecision → ℕ × ℕ
unfolding retry_seconds
too_many_requests decision = (429, at_least_one decision.retry_after)
