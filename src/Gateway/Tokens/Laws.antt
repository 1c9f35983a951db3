-- ===== src/Gateway/Tokens/Laws.antt =====
-- Whose token the proxy sends, and how many it keeps, whatever requests interleave.
use semantius_idp.Prelude.{
  filled, ℕ, ◌+◌, ◌*◌, ◌≤◌, ◌<◌, Text, text_eq, leb, nat_eq, length, In, In-keep_iff, not, Option,
  none, some, if◌then◌else◌, List, [], ◌∷◌, ◌≡◌, inl, inr, refl, ap, sym, ◌∙◌, arith, Bool-cases,
  Option-cases, Dict, remove, In-of_find, In-put, length-put-le, length-keep-le,
}
use semantius_idp.Gateway.Tokens.{
  Caches, CachedToken, bearer, answered, begin_exchange, MintResult, make_room, cache_seconds,
  store_token, finish_exchange, empty_caches, token_cache_max_entries,
}
use semantius_idp.Gateway.Tokens.Entries.{
  begin-tokens, In-make_room, length-make_room-lt, bearer_entry,
}

-- A mint that was answered with a token: for which hash, and when the answer was there.
pub record Mint : Type 0 where
  pub hash : Text
  pub token : Text
  pub at : ℕ

-- The process between two awaits: the maps, and the mints so far.
pub record World : Type 0 where
  pub caches : Caches
  pub log : List Mint

abbrev pub minted_token : MintResult → Option Text
minted_token minted = if nat_eq minted.status 429 then none else filled minted.token

abbrev pub note : Text → ℕ → Option Text → List Mint → List Mint
note hash now none log = log
note hash now (some token) log = record { hash = hash; token = token; at = now } ∷ log

module _ (ttl : ℕ) where
  -- What can happen between two awaits: a request begins, a mint is answered, the maps are reset.
  pub data Step : World → World → Type 0 where
    begin :
        (w : World) (hash : Text) (client_ip : Option Text) (now : ℕ)
        → Step w
            (record { caches = (begin_exchange w.caches hash client_ip now).caches; log = w.log })
    finish :
        (w : World) (hash : Text) (minted : MintResult) (now : ℕ)
        → Step w (record {
          caches = (finish_exchange ttl w.caches hash minted now).caches;
          log = note hash now (minted_token minted) w.log;
        })
    reset : (w : World) → Step w (record { caches = empty_caches; log = w.log })

  pub data Reach (s : World) : World → Type 0 where
    here : Reach s s
    next : {t u : World} → Reach s t → Step t u → Reach s u

  -- The entry comes from a mint for its own hash, and ends with that mint's time to keep.
  abbrev pub Vouched : List Mint → Text × CachedToken → Type 0
  Vouched log e =
      (m : Mint) × In m log
      × (m.hash ≡ e.0)
      × (m.token ≡ e.1.token)
      × (e.1.expires_at ≡ m.at + cache_seconds ttl * 1000)
      × (0 < cache_seconds ttl)

  pub record IsSound (w : World) : Type 0 where
    pub vouched : (e : Text × CachedToken) → In e w.caches.tokens → Vouched w.log e
    pub bounded : length w.caches.tokens ≤ token_cache_max_entries

module _ (ttl : ℕ) where
  store_token-bounded :
      (es : Dict CachedToken) (hash token : Text) (now : ℕ)
      → length es ≤ token_cache_max_entries
      → length (store_token ttl es hash token now) ≤ token_cache_max_entries
  unfolding store_token
  store_token-bounded es hash token now h = ground (
    arith,
    length-make_room-lt now es,
    length-put-le hash (record { token = token; expires_at = now + cache_seconds ttl * 1000 })
        (make_room now es),
  )

  store_token-Vouched :
      (log : List Mint) (es : Dict CachedToken) (hash token : Text) (now : ℕ)
      → ((e : Text × CachedToken) → In e es → Vouched ttl log e)
      → (e : Text × CachedToken) → In e (store_token ttl es hash token now)
      → Vouched ttl (record { hash = hash; token = token; at = now } ∷ log) e
  unfolding store_token
  store_token-Vouched log es hash token now old e i =
      elim (Bool-cases (leb (cache_seconds ttl) 0)) [
        | inl h ↦ later (old e (rw h at i))
        | inr h ↦ elim (In-put hash _ (make_room now es) e (rw h at i)) [
          | inl p ↦ (
            record { hash = hash; token = token; at = now },
            inl refl,
            ap (λ x. x.0) (sym p),
            ap (λ x. x.1.token) (sym p),
            ap (λ x. x.1.expires_at) p,
            ground (arith, h),
          )
          | inr q ↦ later (old e (In-make_room now es e q))
        ]
      ]
    where
      later :
          Vouched ttl log e → Vouched ttl (record { hash = hash; token = token; at = now } ∷ log) e
      later (m, j, p, q, r, z) = (m, inr j, p, q, r, z)

  note-Vouched :
      (log : List Mint) (hash : Text) (now : ℕ) (token : Option Text) (e : Text × CachedToken)
      → Vouched ttl log e
      → Vouched ttl (note hash now token log) e
  note-Vouched log hash now none e v = v
  note-Vouched log hash now (some t) e (m, j, p, q, r, z) = (m, inr j, p, q, r, z)

  finish-IsSound :
      (w : World) (hash : Text) (minted : MintResult) (now : ℕ)
      → IsSound ttl w
      → IsSound ttl (record {
        caches = (finish_exchange ttl w.caches hash minted now).caches;
        log = note hash now (minted_token minted) w.log;
      })
  unfolding finish_exchange
  finish-IsSound w hash minted now s = elim (Bool-cases (nat_eq minted.status 429)) [
    | inl h ↦ rw h (record { vouched = s.vouched; bounded = s.bounded })
    | inr h ↦ elim (Option-cases (filled minted.token)) [
      | inl f ↦ rw (h, f) (record { vouched = s.vouched; bounded = s.bounded })
      | inr (token, f) ↦
          rw (h, f)
            (record {
              vouched = store_token-Vouched w.log w.caches.tokens hash token now s.vouched;
              bounded = store_token-bounded w.caches.tokens hash token now s.bounded;
            })
    ]
  ]

  begin-IsSound :
      (w : World) (hash : Text) (client_ip : Option Text) (now : ℕ)
      → IsSound ttl w
      → IsSound ttl
          (record { caches = (begin_exchange w.caches hash client_ip now).caches; log = w.log })
  begin-IsSound w hash client_ip now s = elim (begin-tokens w.caches hash client_ip now) [
    | inl e ↦ record { vouched = rw e s.vouched; bounded = rw e s.bounded }
    | inr e ↦ record {
      vouched =
          rw e (λ x i. s.vouched x (unfold remove in ((In-keep_iff _ x w.caches.tokens).0 i).0));
      bounded = rw e (
          unfold remove in
          omega (arith, length-keep-le (λ x. not (text_eq x.0 hash)) w.caches.tokens, s.bounded));
    }
  ]

  Step-IsSound : {w v : World} → Step ttl w v → IsSound ttl w → IsSound ttl v
  Step-IsSound (begin w hash client_ip now) s = begin-IsSound w hash client_ip now s
  Step-IsSound (finish w hash minted now) s = finish-IsSound w hash minted now s
  Step-IsSound (reset w) s = record { vouched = λ e i. absurd i; bounded = omega arith }

  -- However lookups, answers of the mint and resets interleave, every kept token was minted for
  -- its own hash and ends in its mint's time to keep, and at most 5000 are kept.
  pub Reach-IsSound : {w v : World} → IsSound ttl w → Reach ttl w v → IsSound ttl v
  Reach-IsSound s here = s
  Reach-IsSound s (next r st) = Step-IsSound st (Reach-IsSound s r)

  pub empty-IsSound : IsSound ttl (record { caches = empty_caches; log = [] })
  empty-IsSound = record { vouched = λ e i. absurd i; bounded = omega arith }

  -- A bearer that is answered without a mint was minted for the same hash, at most ten minutes
  -- ago, and has more than a minute of its lifetime left, in every state that is reached from
  -- empty maps.
  pub answered_bearer :
      {w : World} (hash : Text) (client_ip : Option Text) (now : ℕ) (token : Text)
      → Reach ttl (record { caches = empty_caches; log = [] }) w
      → (begin_exchange w.caches hash client_ip now).begun ≡ answered (some (bearer token))
      → (m : Mint) × In m w.log
        × (m.hash ≡ hash)
        × (m.token ≡ token)
        × (now < m.at + 600 * 1000)
        × (now + 60 * 1000 < m.at + ttl * 1000)
  answered_bearer {w} hash client_ip now token r e =
      let (entry, found, live, same) = bearer_entry w.caches hash client_ip now token e in
      let (m, j, p, q, ends, kept) =
        (Reach-IsSound empty-IsSound r).vouched (hash, entry)
          (In-of_find hash entry w.caches.tokens found) in
      (m, j, p, q ∙ same, ground arith, ground arith)
