-- ===== src/Tests/LimitCases.antt =====
-- A bucket of two requests in a window of one second.
use semantius_idp.Prelude.{ℕ, Text, codes, ◌≡◌, ◌≤◌, ◌*◌, refl, List, [], ◌∷◌, some, arith, text_eq}
use semantius_idp.RateLimit.{
  Bucket, RateLimitRule, admitted, consume, upsert, find_bucket, touch, decide,
}
use semantius_idp.RateLimit.Laws.{at_most_twice}

abbrev two_a_second : RateLimitRule
two_a_second = record { window = 1; max = 2 }

abbrev token : Text
token = codes "token:app"

-- Two requests were counted in a window that began at 500.
abbrev full : List Bucket
full = record { key = codes "idp:token:app"; count = 2; last_request = 500 } ∷ []

abbrev burst : List ℕ
burst = 1400 ∷ 1450 ∷ 1500 ∷ 1501 ∷ 1502 ∷ []

burst-admitted : admitted (some full) token two_a_second burst ≡ 2
unfolding admitted consume upsert find_bucket touch decide text_eq
burst-admitted = refl

at_most_twice_example : admitted (some full) token two_a_second burst ≤ 2 * 2
at_most_twice_example = at_most_twice token two_a_second 1400 burst full (ground arith)
