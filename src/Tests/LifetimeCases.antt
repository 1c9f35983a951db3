-- ===== src/Tests/LifetimeCases.antt =====
-- Trusted browsers, signing keys and refresh tokens as time passes.
use semantius_idp.Prelude.{
  In, Text, Bool, false, Option, text_eq, text_eq_iff, List, [], ap, codes, inl, inr, keep, none,
  refl, some, sym, true, ◌↔◌, ◌∙◌, ◌∷◌, ◌≡◌, ◌≤◌, arith,
}
use semantius_idp.Devices.{Row, create_before, clear_trusted_devices}
use semantius_idp.Devices.Laws.{
  World, Step, Reach, AreBounded, written, entity_of, Reach-AreBounded,
}
use semantius_idp.Devices.Clear.{Trusts, clear_all_iff}
use semantius_idp.Keys.{Key, is_live, newest, effective_at, insert, perform_rotation}
use semantius_idp.Keys.Table.{Signs, AreUniqueIds}
use semantius_idp.Keys.Laws.{successor, updated, dated, signer_kept, takeover_iff}
use semantius_idp.Refresh.{Token, revoke_expired_refresh_families, revoke_families, family_ids}
use semantius_idp.Refresh.Laws.{IsSweptFrom, IsYoungFamily, swept_iff}

-- The row of a browser that was trusted at 5
abbrev browser : Row
browser = record {
  id = codes "1";
  identifier = codes "trust-device-x";
  value = codes "ada";
  created_at = 5;
  expires_at = 500;
}

abbrev at_first : World
at_first = record { rows = []; ticked = [] }

abbrev trusted : World
trusted = record {
  rows = written browser (create_before 100 5 none (entity_of browser)) ∷ [];
  ticked = 5 ∷ [];
}

Reach-AreBounded_example : AreBounded 100 trusted
Reach-AreBounded_example =
    Reach-AreBounded 100 at_first trusted (λ row i t. absurd i)
      (Reach.next Reach.here (Step.tick at_first browser 5 refl))

clear_all_iff_example :
    In browser (clear_trusted_devices (codes "bob") (browser ∷ [])).0
    ↔ (In browser (browser ∷ []) × ¬ Trusts (codes "bob") browser)
clear_all_iff_example = clear_all_iff (codes "bob") (browser ∷ []) browser

-- A key that signs, and the key that a rotation makes
abbrev signer : Key
signer = record { id = codes "a"; created_at = 2000; expires_at = none; alg = some (codes "EdDSA") }

abbrev made : Key
made = record { id = codes "b"; created_at = 9000; expires_at = none; alg = some (codes "EdDSA") }

abbrev fits : Option Text → Bool
fits none = false
fits (some alg) = text_eq alg (codes "EdDSA")

abbrev keys : List Key
keys = signer ∷ []

keys-AreUniqueIds : AreUniqueIds keys
keys-AreUniqueIds x y (inl p) (inl q) e = sym p ∙ q
keys-AreUniqueIds x y (inr i) j e = absurd i
keys-AreUniqueIds x y (inl p) (inr j) e = absurd j

made_fresh : (k : Key) → In k keys → ¬ (k.id ≡ made.id)
unfolding text_eq
made_fresh k (inl p) e = cc ((text_eq_iff (codes "a") (codes "b")).1 (ap (λ x. x.id) p ∙ e))
made_fresh k (inr i) e = absurd i

signer-Signs : Signs fits 9500 keys signer
unfolding text_eq
signer-Signs = (inl refl, refl, refl, only)
  where
    only :
        (other : Key)
        → In other keys
        → is_live 9500 other ≡ true
        → fits other.alg ≡ true
        → other.created_at ≤ 2000
    only other (inl e) h f = omega (arith, ap (λ k. k.created_at) e)
    only other (inr i) h f = absurd i

signer_kept_example :
    Signs fits 9500 (dated fits 9000 10 made keys keys-AreUniqueIds made_fresh) signer
    × (¬ Signs fits 9500
        (dated fits 9000 10 made keys keys-AreUniqueIds made_fresh)
        (successor fits 9000 10 made keys keys-AreUniqueIds made_fresh))
    × Signs fits 9500
        (perform_rotation 9000 10 made keys)
        (updated fits 9000 10 made keys keys-AreUniqueIds made_fresh signer)
    × (¬ Signs fits 9500
        (perform_rotation 9000 10 made keys)
        (successor fits 9000 10 made keys keys-AreUniqueIds made_fresh))
    × (is_live 9500 made ≡ true
        → fits made.alg ≡ true
        → signer.created_at ≤ made.created_at
        → Signs fits 9500 (insert made keys) made)
signer_kept_example =
    signer_kept fits 9000 10 made keys keys-AreUniqueIds made_fresh 9500 signer (omega arith)
      (omega arith) (omega arith) signer-Signs

all_after_epoch : (k : Key) → In k keys → 1000 ≤ k.created_at
all_after_epoch k (inl e) = omega (arith, ap (λ x. x.created_at) e)
all_after_epoch k (inr i) = absurd i

made_fits : fits made.alg ≡ true
unfolding text_eq
made_fits = refl

takeover_iff_example :
    Signs fits 20000
      (perform_rotation 9000 10 made keys)
      (successor fits 9000 10 made keys keys-AreUniqueIds made_fresh)
    ↔ ((k : Key)
        → In k keys
        → is_live 20000 k ≡ true
        → fits k.alg ≡ true
        → (effective_at 9000 10 ≤ 20000) × (newest (keep (is_live 9000) keys) ≡ some k))
takeover_iff_example =
    takeover_iff fits 9000 10 made keys keys-AreUniqueIds made_fresh 20000 (omega arith)
      all_after_epoch refl made_fits

-- Two tokens of one family, the first of them too old
abbrev first_token : Token
first_token = record { id = codes "t1"; family = some (codes "f"); created_at = 1; revoked = none }

abbrev last_token : Token
last_token = record {
  id = codes "t2";
  family = some (codes "f");
  created_at = 9500;
  revoked = none;
}

abbrev tokens : List Token
tokens = first_token ∷ last_token ∷ []

swept_iff_example :
    ((x : Token)
      → In x (revoke_expired_refresh_families 10000 5 tokens).0 ↔ IsSweptFrom 10000 5 tokens x)
    × ((family : Text) (t : Token)
        → In t tokens
        → t.family ≡ some family
        → IsYoungFamily 10000 5 tokens family
        → In t (revoke_expired_refresh_families 10000 5 tokens).0)
swept_iff_example = swept_iff 10000 5 tokens

-- A family whose first token was rotated, and revoked with it, long before the cutoff
abbrev rotated_away : Token
rotated_away = record {
  id = codes "t1";
  family = some (codes "f");
  created_at = 1;
  revoked = some 2;
}

-- The family has outlived the lifetime, and its last token is still good after the sweep.
rotated_family_kept :
    (revoke_expired_refresh_families 10000 5 (rotated_away ∷ last_token ∷ [])).0
    ≡ rotated_away ∷ last_token ∷ []
unfolding revoke_expired_refresh_families revoke_families family_ids
rotated_family_kept = refl
