-- ===== src/Admin/LastAdmin.antt =====
-- Sequences of administrative requests, new accounts and the passing of time. Each request reads
-- the admins and writes with no other one in between, the race that the source's comment names.
use semantius_idp.Prelude.{
  All, Lacks, ℕ, ◌≤◌, false_of_ne_true, Text, text_eq, text_eq_iff, text_eq_refl, In, true, false,
  none, some, List, ◌∷◌, ◌≡◌, ◌≢◌, inl, inr, refl, Bool-cases, arith,
}
use semantius_idp.Admin.{
  AdminUser, AdminAction, set_role, ban, unban, delete, reject, impersonate, is_usable_admin,
  is_currently_banned, removes_an_admin, assert_admin_invariants, load_admins,
}
use semantius_idp.Admin.Invariants.{assert_passes_iff}
use semantius_idp.Admin.Table.{
  AdminStore, UniqueIds, written, after_action, In-after_action_iff, after_action-UniqueIds,
  load_admins_iff,
}

-- Some row of the table is a usable administrator.
abbrev pub HasAdmin : List Text → ℕ → List AdminUser → Type 0
HasAdmin admin_roles now table =
    (u : AdminUser) × In u table × (is_usable_admin now u admin_roles ≡ true)

-- A usable administrator stays one as time passes: a ban can only lapse.
usable-later :
    (now later : ℕ) (u : AdminUser) (admin_roles : List Text)
    → now ≤ later
    → is_usable_admin now u admin_roles ≡ true
    → is_usable_admin later u admin_roles ≡ true
unfolding is_usable_admin is_currently_banned
usable-later now later u admin_roles h e = ground arith

module _ (store : AdminStore) where
  module _ (admin_roles : List Text) (now : ℕ) (target : AdminUser) where
    -- An action that takes no administrator away leaves a usable target usable.
    target_kept :
        (action : AdminAction)
        → is_usable_admin now target admin_roles ≡ true
        → removes_an_admin now action target admin_roles ≡ false
        → (v : AdminUser) × (store.write action target ≡ some v)
          × (is_usable_admin now v admin_roles ≡ true)
    unfolding removes_an_admin is_usable_admin is_currently_banned
    target_kept (set_role roles) u r = (_, store.write-set_role roles target, ground arith)
    target_kept unban u r = (_, store.write-unban target, ground arith)
    target_kept impersonate u r = (_, store.write-impersonate target, u)
    target_kept ban u r = absurd (ground arith)
    target_kept delete u r = absurd (ground arith)
    target_kept reject u r = absurd (ground arith)

    module _ (action : AdminAction) (rows : List AdminUser) where
      other_kept :
          (u : AdminUser)
          → u.id ≢ target.id
          → In u rows
          → is_usable_admin now u admin_roles ≡ true
          → HasAdmin admin_roles now (after_action store target action rows)
      unfolding written
      other_kept u n m usable =
          let away = false_of_ne_true _ (λ e. n ((text_eq_iff u.id target.id).0 e)) in
          (u, (In-after_action_iff store target action u rows).1 (u, m, rw away refl), usable)

      -- One request that passed the rules keeps a usable administrator.
      keeps_admin :
          (actor : AdminUser)
          → All (Lacks 92) admin_roles
          → UniqueIds rows
          → In target rows
          → assert_admin_invariants now actor target action admin_roles
              (load_admins store.like rows admin_roles)
            ≡ none
          → HasAdmin admin_roles now rows
          → HasAdmin admin_roles now (after_action store target action rows)
      unfolding written
      keeps_admin actor safe unique here passed (u, m, usable) =
          elim (Bool-cases (text_eq u.id target.id)) [
            | inr e ↦ other_kept u (λ p. ground (arith, (text_eq_iff u.id target.id).1 p)) m usable
            | inl e ↦
                let same = unique u target m here ((text_eq_iff u.id target.id).0 e) in
                elim (Bool-cases (removes_an_admin now action target admin_roles)) [
                  | inl removed ↦
                      let (a, i, n, h) =
                        ((assert_passes_iff now target admin_roles _ actor action).0 passed).0
                          removed in
                      other_kept a n ((load_admins_iff store admin_roles a rows safe).0 i).0 h
                  | inr kept ↦
                      let (v, w, h) = target_kept action (rw same at usable) kept in
                      (
                        v,
                        (In-after_action_iff store target action v rows).1
                            (target, here, rw (text_eq_refl target.id) w),
                        h,
                      )
                ]
          ]

UniqueIds-cons :
    (u : AdminUser) (rows : List AdminUser)
    → UniqueIds rows
    → ((v : AdminUser) → In v rows → v.id ≢ u.id)
    → UniqueIds (u ∷ rows)
UniqueIds-cons u rows unique fresh v w (inl e) (inl f) same = cc
UniqueIds-cons u rows unique fresh v w (inl e) (inr m) same = absurd (fresh w m (cc))
UniqueIds-cons u rows unique fresh v w (inr m) (inl f) same = absurd (fresh v m (cc))
UniqueIds-cons u rows unique fresh v w (inr m) (inr k) same = unique v w m k same

-- The process at a moment: the clock and the user table.
pub record Deployment : Type 0 where
  pub now : ℕ
  pub rows : List AdminUser

module _ (store : AdminStore) (admin_roles : List Text) where
  -- A request that passed the rules is written, one that was refused is not; time passes; an
  -- account is made under a fresh id.
  pub data Step : Deployment → Deployment → Type 0 where
    act :
        (now : ℕ) (rows : List AdminUser) (actor target : AdminUser) (action : AdminAction)
        → In target rows
        → assert_admin_invariants now actor target action admin_roles
            (load_admins store.like rows admin_roles)
          ≡ none
        → Step
            (record { now = now; rows = rows })
            (record { now = now; rows = after_action store target action rows })
    wait :
        (now later : ℕ) (rows : List AdminUser)
        → now ≤ later
        → Step (record { now = now; rows = rows }) (record { now = later; rows = rows })
    create :
        (now : ℕ) (rows : List AdminUser) (u : AdminUser)
        → ((v : AdminUser) → In v rows → v.id ≢ u.id)
        → Step (record { now = now; rows = rows }) (record { now = now; rows = u ∷ rows })

  pub data Reach (s : Deployment) : Deployment → Type 0 where
    here : Reach s s
    next : {t u : Deployment} → Reach s t → Step t u → Reach s u

  -- The ids are unique, and a usable administrator exists.
  pub record IsAdministered (s : Deployment) : Type 0 where
    pub unique : UniqueIds s.rows
    pub somebody : HasAdmin admin_roles s.now s.rows

  Step-IsAdministered :
      {s t : Deployment}
      → All (Lacks 92) admin_roles
      → Step s t
      → IsAdministered s
      → IsAdministered t
  Step-IsAdministered safe (act now rows actor target action m p) h = record {
    unique = after_action-UniqueIds store target action rows h.unique;
    somebody =
        keeps_admin store admin_roles now target action rows actor safe h.unique m p h.somebody;
  }
  Step-IsAdministered safe (wait now later rows le) h = record {
    unique = h.unique;
    somebody = let (u, m, e) = h.somebody in (u, m, usable-later now later u admin_roles le e);
  }
  Step-IsAdministered safe (create now rows u fresh) h = record {
    unique = UniqueIds-cons u rows h.unique fresh;
    somebody = let (v, m, e) = h.somebody in (v, inr m, e);
  }

  -- Whatever sequence of requests that passed the rules, new accounts and waiting follows, a
  -- deployment with unique ids and a usable administrator keeps one, if no admin role has a backslash.
  pub Reach-IsAdministered :
      {s t : Deployment}
      → All (Lacks 92) admin_roles
      → IsAdministered s
      → Reach s t
      → IsAdministered t
  Reach-IsAdministered safe h here = h
  Reach-IsAdministered safe h (next r st) =
      Step-IsAdministered safe st (Reach-IsAdministered safe h r)
