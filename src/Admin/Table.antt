-- ===== src/Admin/Table.antt =====
-- The user table under administrative writes, and `loadAdmins` over it.
use semantius_idp.Prelude.{
  All, Lacks, In_of_All, some_inj, Text, text_eq, join_with, keep, In, In-keep_iff, any, any_of_In,
  Bool, true, false, Option, none, some, List, [], ◌∷◌, ◌≡◌, ◌↔◌, ◌⊎◌, inl, inr, refl, ap, sym, ◌∙◌,
  Bool-cases, if◌then◌else◌,
}
use semantius_idp.Roles.{is_admin, split_roles}
use semantius_idp.Roles.Laws.{is_admin_iff}
use semantius_idp.Admin.{AdminUser, AdminAction, set_role, unban, impersonate, comma, load_admins}

-- What the admin endpoints write and the database answers, which is not this program's code:
-- a write keeps the id; a role change stores the joined roles; lifting a ban clears it; to
-- impersonate writes nothing; `LIKE '%role%'` finds every column that holds the role, if the role
-- has no backslash (code 92), which escapes.
pub record AdminStore : Type 0 where
  pub like : Text → Option Text → Bool
  pub write : AdminAction → AdminUser → Option AdminUser
  pub like_finds :
      (role : Text) (column : Option Text)
      → Lacks 92 role
      → In role (split_roles column)
      → like role column ≡ true
  pub write_id : (a : AdminAction) (u v : AdminUser) → write a u ≡ some v → v.id ≡ u.id
  pub write-set_role :
      (roles : List Text) (u : AdminUser)
      → write (set_role roles) u ≡ some (record u { role = some (join_with comma roles) })
  pub write-unban :
      (u : AdminUser) → write unban u ≡ some (record u { banned = some false; ban_expires = none })
  pub write-impersonate : (u : AdminUser) → write impersonate u ≡ some u

abbrev cons_option : {A : Type 0} → Option A → List A → List A
cons_option none xs = xs
cons_option (some x) xs = x ∷ xs

-- Ids are the table's primary key.
abbrev pub UniqueIds : List AdminUser → Type 0
UniqueIds rows = (u v : AdminUser) → In u rows → In v rows → u.id ≡ v.id → u ≡ v

In-cons_option :
    {A : Type 0} (o : Option A) (x : A) (xs : List A)
    → In x (cons_option o xs) ↔ ((o ≡ some x) ⊎ In x xs)
In-cons_option none x xs = (λ m. inr m, elim [ inl e ↦ cc | inr m ↦ m ])
In-cons_option (some y) x xs = (
  elim [ inl e ↦ inl (ap some e) | inr m ↦ inr m ],
  elim [ inl e ↦ inl (some_inj e) | inr m ↦ inr m ],
)

module _ (store : AdminStore) where
  -- What the write makes of a row, when it is aimed at `target`.
  unfoldable pub written : AdminUser → AdminAction → AdminUser → Option AdminUser
  written target action u = if text_eq u.id target.id then store.write action u else some u

  -- The table after an action on `target`.
  pub after_action : AdminUser → AdminAction → List AdminUser → List AdminUser
  unfolding written
  after_action target action [] = []
  after_action target action (u ∷ rows) =
      let rest = after_action target action rows in cons_option (written target action u) rest

  pub In-after_action_iff :
      (target : AdminUser) (action : AdminAction) (v : AdminUser) (rows : List AdminUser)
      → In v (after_action target action rows)
        ↔ ((u : AdminUser) × In u rows × (written target action u ≡ some v))
  unfolding after_action
  In-after_action_iff target action v [] = (λ m. absurd m, λ (u, m, e). m)
  In-after_action_iff target action v (u ∷ rows) =
      let (to, from) = In-after_action_iff target action v rows in
      let (split, join) =
        In-cons_option (written target action u) v (after_action target action rows) in
      (
        λ m. elim (split m) [
          | inl e ↦ (u, inl refl, e)
          | inr m' ↦ let (w, i, e) = to m' in (w, inr i, e)
        ],
        λ (w, i, e). join (elim i [ inl p ↦ inl (rw p e) | inr i' ↦ inr (from (w, i', e)) ]),
      )

  written-id :
      (target : AdminUser) (action : AdminAction) (u v : AdminUser)
      → written target action u ≡ some v
      → v.id ≡ u.id
  unfolding written
  written-id target action u v e = elim (Bool-cases (text_eq u.id target.id)) [
    | inl h ↦ store.write_id action u v (rw h at e)
    | inr h ↦ ap (λ w. w.id) (sym (some_inj (rw h at e)))
  ]

  pub after_action-UniqueIds :
      (target : AdminUser) (action : AdminAction) (rows : List AdminUser)
      → UniqueIds rows
      → UniqueIds (after_action target action rows)
  after_action-UniqueIds target action rows unique v w mv mw same =
      let (u, iu, eu) = (In-after_action_iff target action v rows).0 mv in
      let (x, ix, ex) = (In-after_action_iff target action w rows).0 mw in
      let one =
        unique u x iu ix (cc (written-id target action u v eu, written-id target action x w ex)) in
      some_inj (sym eu ∙ (ap (written target action) one ∙ ex))

  -- With admin roles that have no backslash, `loadAdmins` returns exactly the rows that hold one of
  -- them: the database's net loses nobody.
  pub load_admins_iff :
      (admin_roles : List Text) (u : AdminUser) (rows : List AdminUser)
      → All (Lacks 92) admin_roles
      → In u (load_admins store.like rows admin_roles)
        ↔ (In u rows × (is_admin u.role admin_roles ≡ true))
  unfolding load_admins
  load_admins_iff [] u rows safe = (λ m. absurd m, λ (m, e). unfold is_admin in cc)
  load_admins_iff (r ∷ rs) u rows safe =
      let sieve =
        In-keep_iff (λ v. is_admin v.role (r ∷ rs)) u
          (keep (λ v. any (λ role. store.like role v.role) (r ∷ rs)) rows) in
      let net = In-keep_iff (λ v. any (λ role. store.like role v.role) (r ∷ rs)) u rows in
      (
        λ m. let (i, e) = sieve.0 m in ((net.0 i).0, e),
        λ (i, e).
            let (role, listed, held) = (is_admin_iff u.role (r ∷ rs)).0 e in
            let caught =
              any_of_In (λ q. store.like q u.role) role (r ∷ rs) listed
                (store.like_finds role u.role (In_of_All (Lacks 92) role (r ∷ rs) safe listed)
                  held) in
            sieve.1 (net.1 (i, caught), e),
      )
