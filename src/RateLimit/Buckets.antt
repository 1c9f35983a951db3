-- ===== src/RateLimit/Buckets.antt =====
-- The rows of the limiter's table by key: apps/web/src/server/http/rate-limit.ts.
use mathlib.Core.Option as Option
use semantius_idp.Prelude.{
  Bool-cases, List, Text, [], ap, false, false_of_ne_true, if◌then◌else◌, inl, inr, keep, none, not,
  refl, some, sym, text_eq, text_eq_iff, text_eq_refl, ℕ, ◌∙◌, ◌∷◌, ◌≡◌, ◌≢◌, arith,
}
use semantius_idp.RateLimit.{Bucket, prefixed, touch, find_bucket, upsert}

pub find_bucket-upsert-none :
    (key : Text) (span now : ℕ) (rows : List Bucket)
    → find_bucket key rows ≡ none
    → find_bucket key (upsert key span now rows)
      ≡ some (record { key = key; count = 1; last_request = now })
unfolding find_bucket upsert
find_bucket-upsert-none key span now [] e = rw (text_eq_refl key) refl
find_bucket-upsert-none key span now (row ∷ rows) e = elim (Bool-cases (text_eq row.key key)) [
  | inl h ↦ ground (arith, h, e)
  | inr h ↦ rw (h, find_bucket, h) (find_bucket-upsert-none key span now rows (rw h at e))
]

pub touch_key : (span now : ℕ) (row : Bucket) → (touch span now row).key ≡ row.key
unfolding touch
touch_key span now row = ground arith

pub find_bucket-upsert-some :
    (key : Text) (span now : ℕ) (rows : List Bucket) (old : Bucket)
    → find_bucket key rows ≡ some old
    → find_bucket key (upsert key span now rows) ≡ some (touch span now old)
unfolding find_bucket upsert
find_bucket-upsert-some key span now [] old e = cc
find_bucket-upsert-some key span now (row ∷ rows) old e = elim (Bool-cases (text_eq row.key key)) [
  | inl h ↦
      rw (h, find_bucket, touch_key span now row, h)
        (ap (λ o. Option.map (touch span now) o) (rw h at e))
  | inr h ↦ rw (h, find_bucket, h) (find_bucket-upsert-some key span now rows old (rw h at e))
]

pub find_bucket-upsert-other :
    (key other : Text) (span now : ℕ) (rows : List Bucket)
    → key ≢ other
    → find_bucket other (upsert key span now rows) ≡ find_bucket other rows
unfolding find_bucket upsert
find_bucket-upsert-other key other span now [] n = ground (arith, (text_eq_iff key other).0)
find_bucket-upsert-other key other span now (row ∷ rows) n =
    elim (Bool-cases (text_eq row.key key)) [
      | inl h ↦
          let apart : text_eq row.key other ≡ false =
            false_of_ne_true _
              (λ t. n (sym ((text_eq_iff row.key key).0 h) ∙ (text_eq_iff row.key other).0 t)) in
          rw (h, find_bucket, touch_key span now row, apart) refl
      | inr h ↦
          rw (h, find_bucket)
            (ap (λ o. if text_eq row.key other then some row else o)
              (find_bucket-upsert-other key other span now rows n))
    ]

pub prefixed-injective : (a b : Text) → prefixed a ≡ prefixed b → a ≡ b
prefixed-injective a b e = cc

pub find_bucket-keep :
    (key : Text) (rows : List Bucket)
    → find_bucket key (keep (λ row. not (text_eq row.key key)) rows) ≡ none
unfolding find_bucket
find_bucket-keep key [] = refl
find_bucket-keep key (row ∷ rows) = elim (Bool-cases (text_eq row.key key)) [
  | inl h ↦ rw (h) (find_bucket-keep key rows)
  | inr h ↦ rw (h, find_bucket, h) (find_bucket-keep key rows)
]
