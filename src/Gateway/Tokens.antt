-- ===== src/Gateway/Tokens.antt =====
-- The tokens that the gateway proxy mints and keeps: the three module-level maps and `exchange`
-- of apps/web/src/server/gateways/proxy.ts.
pub mod Entries
pub mod Laws
pub mod Keys
use semantius_idp.Prelude.{
  filled, ℕ, ◌+◌, ◌-◌, ◌*◌, Text, String, codes, leb, ltb, nat_eq, length, keep, Bool, true, Option,
  none, some, if◌then◌else◌, or_else, [], ◌∷◌, ◌++◌, Dict, find, put, remove,
}

abbrev pub token_cache_max_seconds : ℕ
token_cache_max_seconds = 600

abbrev pub negative_cache_ms : ℕ
negative_cache_ms = 10000

abbrev pub token_cache_max_entries : ℕ
token_cache_max_entries = 5000

abbrev pub mint_miss_window_ms : ℕ
mint_miss_window_ms = 60000

abbrev pub mint_miss_max : ℕ
mint_miss_max = 30

-- `CachedToken`
pub record CachedToken : Type 0 where
  pub token : Text
  pub expires_at : ℕ

pub record Misses : Type 0 where
  pub count : ℕ
  pub reset_at : ℕ

-- `tokenCache`, `negativeCache` and `mintMisses`
pub record Caches : Type 0 where
  pub tokens : Dict CachedToken
  pub negative : Dict ℕ
  pub misses : Dict Misses

-- `resetGatewayTokenCache`
abbrev pub empty_caches : Caches
empty_caches = record { tokens = []; negative = []; misses = [] }

pub data Credential : Type 0 where
  key session : Text → Credential

abbrev pub kind_of : Credential → Text
kind_of (key secret) = codes "key"
kind_of (session secret) = codes "session"

abbrev pub secret_of : Credential → Text
secret_of (key secret) = secret
secret_of (session secret) = secret

abbrev pub namespace_of : Credential → Option Text → Text
namespace_of c none = kind_of c
namespace_of c (some name) = kind_of c ++ (b'@' ∷ name)

-- What `hashCredential` hashes; `scope` is the gateway's name where it has an audience of its own.
unfoldable pub hashed_text : Credential → Option Text → Text
hashed_text c scope = namespace_of c scope ++ (b':' ∷ secret_of c)

-- What is sent upstream: `authorization: Bearer …`, or a refusal by its status and code.
pub data Translation : Type 0 where
  bearer : Text → Translation
  rejected : ℕ → Text → Translation

-- `allowMintAttempt`: the counters after it, and its answer
unfoldable pub allow_mint_attempt : Dict Misses → Option Text → ℕ → Dict Misses × Bool
allow_mint_attempt misses client_ip now =
    let bucket = or_else client_ip (codes "unknown") in
    let fresh : Dict Misses × Bool =
      (put bucket (record { count = 1; reset_at = now + mint_miss_window_ms }) misses, true) in
    elim (find bucket misses) [
      | none ↦ fresh
      | some current ↦ if leb current.reset_at now then fresh else (
        put bucket (record { count = current.count + 1; reset_at = current.reset_at }) misses,
        leb (current.count + 1) mint_miss_max,
      )
    ]

-- How far `exchange` comes before it awaits the mint.
pub data Begun : Type 0 where
  answered : Option Translation → Begun
  to_mint : Begun

pub record Started : Type 0 where
  pub caches : Caches
  pub begun : Begun

abbrev try_mint : Caches → Option Text → ℕ → Started
try_mint caches client_ip now =
    let attempt = allow_mint_attempt caches.misses client_ip now in
    record {
      caches = record caches { misses = attempt.0 };
      begun =
          if attempt.1
          then to_mint
          else answered (some (rejected 429 (codes "too_many_mint_attempts")));
    }

-- From the look into `negativeCache` on
unfoldable pub after_miss : Caches → Text → Option Text → ℕ → Started
after_miss caches hash client_ip now = elim (find hash caches.negative) [
  | none ↦ try_mint caches client_ip now
  | some until ↦
      if ltb now until
      then record { caches = caches; begun = answered none }
      else try_mint (record caches { negative = remove hash caches.negative }) client_ip now
]

-- `exchange` up to `await mint`
unfoldable pub begin_exchange : Caches → Text → Option Text → ℕ → Started
unfolding after_miss
begin_exchange caches hash client_ip now = elim (find hash caches.tokens) [
  | none ↦ after_miss caches hash client_ip now
  | some entry ↦
      if ltb now entry.expires_at
      then record { caches = caches; begun = answered (some (bearer entry.token)) }
      else after_miss (record caches { tokens = remove hash caches.tokens }) hash client_ip now
]

-- `MintResult`
pub record MintResult : Type 0 where
  pub status : ℕ
  pub token : Option Text

-- The `while` of `storeToken`: the oldest entries go first.
unfoldable pub evict : Dict CachedToken → Dict CachedToken
evict [] = []
evict (e ∷ es) = if leb token_cache_max_entries (length (e ∷ es)) then evict es else e ∷ es

unfoldable pub make_room : ℕ → Dict CachedToken → Dict CachedToken
unfolding evict
make_room now tokens =
    if leb token_cache_max_entries (length tokens)
    then evict (keep (λ e. ltb now e.1.expires_at) tokens)
    else tokens

-- `Math.min(TOKEN_CACHE_MAX_SECONDS, ttl - 60)`, zero where the source's number is negative.
abbrev pub cache_seconds : ℕ → ℕ
cache_seconds ttl =
    if leb token_cache_max_seconds (ttl - 60) then token_cache_max_seconds else ttl - 60

-- `storeToken`
unfoldable pub store_token : ℕ → Dict CachedToken → Text → Text → ℕ → Dict CachedToken
unfolding make_room
store_token ttl tokens hash token now =
    if leb (cache_seconds ttl) 0
    then tokens
    else put hash (record { token = token; expires_at = now + cache_seconds ttl * 1000 })
        (make_room now tokens)

pub record Finished : Type 0 where
  pub caches : Caches
  pub translation : Option Translation

-- `exchange` from the answer of the mint on
unfoldable pub finish_exchange : ℕ → Caches → Text → MintResult → ℕ → Finished
unfolding store_token
finish_exchange ttl caches hash minted now =
    if nat_eq minted.status 429
    then record { caches = caches; translation = some (rejected 429 (codes "rate_limited")) }
    else elim (filled minted.token) [
      | none ↦ record {
        caches = record caches { negative = put hash (now + negative_cache_ms) caches.negative };
        translation = none;
      }
      | some token ↦ record {
        caches = record caches { tokens = store_token ttl caches.tokens hash token now };
        translation = some (bearer token);
      }
    ]
