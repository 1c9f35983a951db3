-- ===== src/Gateway/Tokens/Entries.antt =====
-- What is looked up in the map of tokens and what is evicted from it:
-- apps/web/src/server/gateways/proxy.ts.
use semantius_idp.Prelude.{
  ℕ, ◌<◌, Text, leb, ltb, length, keep, In, In-keep_iff, Option, some, [], ◌∷◌, ◌≡◌, ◌⊎◌, inl, inr,
  refl, arith, Bool-cases, Option-cases, Dict, find, remove,
}
use semantius_idp.Gateway.Tokens.{
  Caches, CachedToken, bearer, answered, begin_exchange, after_miss, evict, make_room,
  token_cache_max_entries,
}

pub after_miss-tokens :
    (c : Caches) (hash : Text) (client_ip : Option Text) (now : ℕ)
    → (after_miss c hash client_ip now).caches.tokens ≡ c.tokens
unfolding after_miss
after_miss-tokens c hash client_ip now = ground arith

-- A look-up leaves the tokens as they are, or without its own expired one.
pub begin-tokens :
    (c : Caches) (hash : Text) (client_ip : Option Text) (now : ℕ)
    → ((begin_exchange c hash client_ip now).caches.tokens ≡ c.tokens)
      ⊎ ((begin_exchange c hash client_ip now).caches.tokens ≡ remove hash c.tokens)
unfolding begin_exchange
begin-tokens c hash client_ip now = elim (Option-cases (find hash c.tokens)) [
  | inl e ↦ inl (rw (e, begin_exchange) (after_miss-tokens c hash client_ip now))
  | inr (entry, e) ↦ elim (Bool-cases (ltb now entry.expires_at)) [
    | inl h ↦ inl (rw (e, begin_exchange, h) refl)
    | inr h ↦ inr (rw (e, begin_exchange, h) (after_miss-tokens _ hash client_ip now))
  ]
]

pub In-evict : (e : Text × CachedToken) (es : Dict CachedToken) → In e (evict es) → In e es
unfolding evict
In-evict e [] i = i
In-evict e (x ∷ es) i = elim (Bool-cases (leb token_cache_max_entries (length (x ∷ es)))) [
  | inl h ↦ inr (In-evict e es (rw h at i))
  | inr h ↦ rw h at i
]

pub length-evict-lt : (es : Dict CachedToken) → length (evict es) < token_cache_max_entries
unfolding evict
length-evict-lt [] = omega arith
length-evict-lt (x ∷ es) = ground (arith, length-evict-lt es)

pub In-make_room :
    (now : ℕ) (es : Dict CachedToken) (e : Text × CachedToken) → In e (make_room now es) → In e es
unfolding make_room
In-make_room now es e i = elim (Bool-cases (leb token_cache_max_entries (length es))) [
  | inl h ↦ ((In-keep_iff _ e es).0 (In-evict e _ (rw h at i))).0
  | inr h ↦ rw h at i
]

pub length-make_room-lt :
    (now : ℕ) (es : Dict CachedToken) → length (make_room now es) < token_cache_max_entries
unfolding make_room
length-make_room-lt now es = ground (arith, length-evict-lt (keep (λ e. ltb now e.1.expires_at) es))

pub after_miss_bearer :
    (c : Caches) (hash : Text) (client_ip : Option Text) (now : ℕ) (token : Text)
    → ¬ ((after_miss c hash client_ip now).begun ≡ answered (some (bearer token)))
unfolding after_miss
after_miss_bearer c hash client_ip now token e = ground (arith, e)

pub bearer_entry :
    (c : Caches) (hash : Text) (client_ip : Option Text) (now : ℕ) (token : Text)
    → (begin_exchange c hash client_ip now).begun ≡ answered (some (bearer token))
    → (entry : CachedToken) × (find hash c.tokens ≡ some entry)
      × (now < entry.expires_at)
      × (entry.token ≡ token)
unfolding begin_exchange
bearer_entry c hash client_ip now token e = elim (Option-cases (find hash c.tokens)) [
  | inl n ↦ absurd (after_miss_bearer c hash client_ip now token (rw (n, begin_exchange) at e))
  | inr (entry, n) ↦ elim (Bool-cases (ltb now entry.expires_at)) [
    | inl h ↦ (entry, n, ground (arith, h), cc (rw (n, begin_exchange, h) at e))
    | inr h ↦ absurd (after_miss_bearer _ hash client_ip now token (rw (n, begin_exchange, h) at e))
  ]
]
