-- ===== src/Standing/Hooks/Laws.antt =====
-- What a written password cuts off:
-- apps/web/src/server/auth/options/database-hooks.ts.
use semantius_idp.Prelude.{
  Bool, Bool-cases, Dict, List, Text, codes, false, find, find-change, has_text, if◌then◌else◌, inl,
  inr, map_row, not, refl, some, text_eq, true, ℕ, ◌&&◌, ◌∷◌, ◌≡◌,
}
use semantius_idp.Oauth.{AccessToken, RefreshToken}
use semantius_idp.Oauth.Revoke.{Store, revoke_all_for_user, user_access, user_refresh}
use semantius_idp.Oauth.Revoke.Laws.{IsCut, revoke_all-IsCut}
use semantius_idp.Standing.Hooks.{
  self_service_password_paths, password_write_paths, written_through, HookState, Account,
  clear_must_change_password, revoke_tokens_after_password_write, account_updated,
}

-- A credential account of a user
abbrev pub credential_of : Text → Account
credential_of id = record { provider_id = some (codes "credential"); user_id = some id }

written_through_lem :
    (paths : List Text) (c : ℕ) (p : Text)
    → written_through paths (some (codes "credential")) (some (c ∷ p)) ≡ has_text paths (c ∷ p)
unfolding written_through text_eq
written_through_lem paths c p = refl

flags_after :
    (c d : ℕ) (id path k : Text) (forced : Dict Bool)
    → find k (clear_must_change_password true (credential_of (c ∷ id)) (some (d ∷ path)) forced) ≡ (
        if has_text self_service_password_paths (d ∷ path) && text_eq (c ∷ id) k
        then map_row (λ flag. false) (find k forced)
        else find k forced)
unfolding clear_must_change_password
flags_after c d id path k forced =
    let test = written_through_lem self_service_password_paths d path in
    elim (Bool-cases (has_text self_service_password_paths (d ∷ path))) [
      | inl y ↦ rw (test, y) (find-change (c ∷ id) k (λ flag. false) forced)
      | inr n ↦ rw (test, n) refl
    ]

-- The path writes passwords, and the access or refresh token is the user's.
abbrev pub cut_access : Text → Text → AccessToken → Bool
cut_access path id a = has_text password_write_paths path && user_access id a

abbrev pub cut_refresh : Text → Text → RefreshToken → Bool
cut_refresh path id t = has_text password_write_paths path && user_refresh id t

IsCut-when :
    (b : Bool) (now : ℕ) (id reason : Text) (store : Store)
    → IsCut
        (λ a. b && user_access id a)
        (λ t. b && user_refresh id t)
        store.tables
        (if not b then store else (revoke_all_for_user now id reason store).0).tables
IsCut-when true now id reason store = revoke_all-IsCut now id reason store
IsCut-when false now id reason store = record {
  access = λ a. (λ i. (i, refl), λ (i, e). i);
  refresh = λ t live. (λ i. (i, refl), λ (i, e). i);
}

tokens-IsCut :
    (now c d : ℕ) (id path : Text) (store : Store)
    → IsCut
        (cut_access (d ∷ path) (c ∷ id))
        (cut_refresh (d ∷ path) (c ∷ id))
        store.tables
        (revoke_tokens_after_password_write true now
          (credential_of (c ∷ id))
          (some (d ∷ path))
          store).tables
unfolding revoke_tokens_after_password_write
tokens-IsCut now c d id path store =
    rw (written_through_lem password_write_paths d path)
      (IsCut-when (has_text password_write_paths (d ∷ path)) now (c ∷ id) _ store)

-- After the credential account of a user, whose id is not empty, is written through a path that is not
-- empty, with the database there: exactly on the paths where users set their own password, the user,
-- and nobody else, is let out of the forced change; exactly on the paths that write a password, the
-- user's access tokens are gone and none of the user's refresh tokens is unrevoked, and of these two
-- kinds all other tokens stay.
pub password_hook_exact :
    (now c d : ℕ) (id path : Text) (w : HookState)
    → ((k : Text)
        → find k (account_updated true true now (credential_of (c ∷ id)) (some (d ∷ path)) w).forced
          ≡ (if has_text self_service_password_paths (d ∷ path) && text_eq (c ∷ id) k
              then map_row (λ flag. false) (find k w.forced)
              else find k w.forced))
      × IsCut
          (cut_access (d ∷ path) (c ∷ id))
          (cut_refresh (d ∷ path) (c ∷ id))
          w.store.tables
          (account_updated true true now (credential_of (c ∷ id)) (some (d ∷ path)) w).store.tables
unfolding account_updated
password_hook_exact now c d id path w =
    (λ k. flags_after c d id path k w.forced, tokens-IsCut now c d id path w.store)
