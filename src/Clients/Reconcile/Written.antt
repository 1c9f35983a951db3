-- ===== src/Clients/Reconcile/Written.antt =====
-- What a row holds after it is written: apps/web/src/server/oidc/reconcile.ts.
use semantius_idp.Prelude.{
  All, IsUnique-of_distinct, has_text, Bool, Bool-cases, Dict, In, In-find, IsUnique, List, Option,
  Text, [], any, codes, false, inl, inr, nat_eq_iff, none, not, refl, some, text_eq, text_eq_iff,
  text_eq_refl, true, ℕ, ◌∷◌, ◌≡◌, arith,
}
use semantius_idp.Clients.{Metadata, ClientEntry, ClientRow, to_client_row, metadata_for}
use semantius_idp.Clients.Rows.{
  texts_eq, Column, null, text, flag, texts, json, time, TableRow, owned_columns, columns_of,
  of_text, of_texts, of_json,
}
use semantius_idp.Clients.Reconcile.{Environment, equal, differs, stored, write, desired_row}
use semantius_idp.Clients.Reconcile.Table.{entry_row}

texts_eq_refl : (ts : List Text) → texts_eq ts ts ≡ true
texts_eq_refl [] = refl
texts_eq_refl (t ∷ ts) = ground (arith, text_eq_refl t, texts_eq_refl ts)

infixr 5 ◌and◌
-- The facts of a list, one for each element
◌and◌ : {P Q : Type 0} → P → Q → P × Q
◌and◌ p q = (p, q)

module _ (env : Environment) where
  -- The database gives the object back so that it prints as it did.
  abbrev pub Survives : Metadata → Type 0
  Survives m = env.stringify (env.normal m) ≡ env.stringify m

  abbrev ColumnSurvives : Column → Type 0
  ColumnSurvives c = (m : Metadata) → c ≡ json m → Survives m

  equal-stored : (c : Column) → ColumnSurvives c → equal env (stored env c) c ≡ true
  unfolding equal
  equal-stored null s = refl
  equal-stored (text t) s = text_eq_refl t
  equal-stored (flag true) s = refl
  equal-stored (flag false) s = refl
  equal-stored (texts ts) s = texts_eq_refl ts
  equal-stored (json m) s =
      (text_eq_iff (env.stringify (env.normal m)) (env.stringify m)).1 (s m refl)
  equal-stored (time n) s = (nat_eq_iff n n).1 refl

  of_text-Survives : (o : Option Text) → ColumnSurvives (of_text o)
  of_text-Survives none m e = cc
  of_text-Survives (some t) m e = cc

  of_texts-Survives : (o : Option (List Text)) → ColumnSurvives (of_texts o)
  of_texts-Survives none m e = cc
  of_texts-Survives (some t) m e = cc

  of_json-Survives :
      (o : Option Metadata)
      → ((m : Metadata) → o ≡ some m → Survives m)
      → ColumnSurvives (of_json o)
  of_json-Survives none s m e = cc
  of_json-Survives (some n) s m e = s m (cc e)

  flag-Survives : (b : Bool) → ColumnSurvives (flag b)
  flag-Survives b m e = cc

  texts-Survives : (ts : List Text) → ColumnSurvives (texts ts)
  texts-Survives ts m e = cc

  text-Survives : (t : Text) → ColumnSurvives (text t)
  text-Survives t m e = cc

  owned-Survives :
      (d : ClientRow)
      → ((m : Metadata) → d.metadata ≡ some m → Survives m)
      → All (λ c. ColumnSurvives c.1) (owned_columns d)
  unfolding owned_columns
  owned-Survives d s =
      of_text-Survives d.client_secret
      and of_text-Survives d.name
      and flag-Survives d.disabled
      and of_text-Survives d.client_discovery_id
      and flag-Survives d.skip_consent
      and flag-Survives d.enable_end_session
      and of_texts-Survives d.scopes
      and texts-Survives d.redirect_uris
      and texts-Survives d.post_logout_redirect_uris
      and texts-Survives d.grant_types
      and texts-Survives d.response_types
      and flag-Survives d.require_pkce
      and text-Survives d.token_endpoint_auth_method
      and of_text-Survives d.application_type
      and of_text-Survives d.uri
      and of_text-Survives d.icon
      and texts-Survives d.contacts
      and of_text-Survives d.tos
      and of_text-Survives d.policy
      and of_json-Survives d.metadata s
      and of_text-Survives d.user_id
      and tt

  pub inserted-IsUnique :
      (d : ClientRow) (id : Column) (now : ℕ)
      → IsUnique (
          (codes "id", id)
          ∷ (codes "createdAt", time now)
          ∷ (codes "updatedAt", time now)
          ∷ columns_of d)
  unfolding owned_columns has_text text_eq
  inserted-IsUnique d id now =
      IsUnique-of_distinct
        ((codes "id", id)
          ∷ (codes "createdAt", time now)
          ∷ (codes "updatedAt", time now)
          ∷ columns_of d)
        refl

  pub written :
      (columns : Dict Column) (row : TableRow) (k : Text) (c : Column)
      → IsUnique columns
      → In (k, c) columns
      → write env columns row k ≡ stored env c
  unfolding write
  written columns row k c u i = rw (write, In-find k c columns u i) refl

  pub no_difference :
      (columns : Dict Column) (row : TableRow) (cs : Dict Column)
      → IsUnique columns
      → ((c : Text × Column) → In c cs → In c columns)
      → All (λ c. ColumnSurvives c.1) cs
      → any (λ c. not (equal env (write env columns row c.0) c.1)) cs ≡ false
  no_difference columns row [] u i s = refl
  no_difference columns row ((k, c) ∷ cs) u i (s, ss) =
      rw (written columns row k c u (i (k, c) (inl refl)), equal-stored c s)
        (no_difference columns row cs u (λ x j. i x (inr j)) ss)

  pub settled_row :
      (now : ℕ) (e : ClientEntry) (old : Option TableRow)
      → ((m : Metadata) → metadata_for e ≡ some m → Survives m)
      → differs env (entry_row env now e old) (desired_row env e) ≡ false
  unfolding differs to_client_row
  settled_row now e none s =
      no_difference _ env.blank (owned_columns (desired_row env e))
        (inserted-IsUnique (desired_row env e) (text (env.uuid e.client_id)) now)
        (λ c i. inr (inr (inr (inr i)))) (owned-Survives (desired_row env e) s)
  settled_row now e (some row) s = elim (Bool-cases (differs env row (desired_row env e))) [
    | inl h ↦ rw (h) (
        no_difference _ row (owned_columns (desired_row env e))
          (inserted-IsUnique (desired_row env e) null now).1.1 (λ c i. inr (inr i))
          (owned-Survives (desired_row env e) s))
    | inr h ↦ rw (h) h
  ]
