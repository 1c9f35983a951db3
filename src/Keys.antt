-- ===== src/Keys.antt =====
-- The rotation of the signing key: apps/web/src/server/oidc/rotate-keys.ts, under its lock. Times are
-- milliseconds. A subtraction stops at 0 here, where the source's goes below.
pub mod Table
pub mod Laws
use semantius_idp.Prelude.{
  ℕ, ◌+◌, ◌-◌, ◌*◌, Text, text_eq, leb, ltb, keep, map, Bool, true, Option, none, some,
  if◌then◌else◌, List, [], ◌∷◌,
}

-- A row of `jwks`, as far as the choice of a signer reads it
pub record Key : Type 0 where
  pub id : Text
  pub created_at : ℕ
  pub expires_at : Option ℕ
  pub alg : Option Text

-- `expires_at is null or expires_at > now`
abbrev pub is_live : ℕ → Key → Bool
is_live now k = elim (k.expires_at) [ none ↦ true | some e ↦ ltb now e ]

-- `live[0]` of the live keys by `createdAt`
unfoldable pub oldest : List Key → Option Key
oldest [] = none
oldest (k ∷ ks) =
    let rest = oldest ks in
    some (elim rest [ none ↦ k | some o ↦ if leb k.created_at o.created_at then k else o ])

-- `live[live.length - 1]` of the live keys by `createdAt`
unfoldable pub newest : List Key → Option Key
newest [] = none
newest (k ∷ ks) =
    let rest = newest ks in
    some (elim rest [ none ↦ k | some o ↦ if leb k.created_at o.created_at then o else k ])

-- `!current || current > effectiveAt`
abbrev pub lasts : ℕ → Option ℕ → Bool
lasts effective none = true
lasts effective (some e) = ltb effective e

abbrev pub expire_at : ℕ → Key → Key
expire_at effective k = record {
  id = k.id;
  created_at = k.created_at;
  expires_at = some effective;
  alg = k.alg;
}

abbrev pub set_expiry : ℕ → Text → Key → Key
set_expiry effective id k = if text_eq k.id id then expire_at effective k else k

-- The update of the retiring key
unfoldable pub retire : ℕ → Option Key → List Key → List Key
retire effective none keys = keys
retire effective (some retiring) keys =
    if lasts effective retiring.expires_at
    then map (λ k. set_expiry effective retiring.id k) keys
    else keys

abbrev pub effective_at : ℕ → ℕ → ℕ
effective_at now propagation_seconds = now + propagation_seconds * 1000

abbrev pub date_at : ℕ → Key → Key
date_at time k = record { id = k.id; created_at = time; expires_at = k.expires_at; alg = k.alg }

abbrev pub set_date : ℕ → Text → Key → Key
set_date time id k = if text_eq k.id id then date_at time k else k

-- `backdated`: behind every live key
unfoldable pub backdated : ℕ → List Key → ℕ
backdated now live = elim (oldest live) [ none ↦ now | some o ↦ o.created_at ] - 1000

-- The table after `createJwk`, when it made `created`
abbrev pub insert : Key → List Key → List Key
insert created keys = created ∷ keys

-- The table after the update of the successor, with the live keys that were read before all writes
unfoldable pub backdate : ℕ → List Key → Text → List Key → List Key
backdate now live id keys = map (λ k. set_date (backdated now live) id k) keys

-- `performRotation`: the three writes, each of them awaited, and the table after the last.
unfoldable pub perform_rotation : ℕ → ℕ → Key → List Key → List Key
perform_rotation now propagation_seconds created keys =
    let live = keep (is_live now) keys in
    let inserted = insert created keys in
    let dated = backdate now live created.id inserted in
    retire (effective_at now propagation_seconds) (newest live) dated
