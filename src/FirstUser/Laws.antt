-- ===== src/FirstUser/Laws.antt =====
-- At most one first user, however requests interleave, and one who administers:
-- apps/web/src/server/admin/first-user.ts.
use semantius_idp.Prelude.{
  Bool, Bool-cases, In, List, List-cases, Text, [], ap, false, inl, inr, length, refl, some,
  some_inj, subst, sym, true, ◌++◌, ◌∙◌, ◌∷◌, ◌≡◌, ◌≢◌, ◌≤◌, arith,
}
use semantius_idp.Admin.{AdminUser}
use semantius_idp.FirstUser.{
  NewUser, is_closed, Phase, free, locked, found_none, made, World, begin_pending, end_pending,
  mark_setup_complete, at_phase, check_empty, add_user, create_user, create_account,
}

-- One step of some request, with any number of them under way: it takes the lock, checks, makes the user,
-- links the password, or fails and gives the lock back; somebody else's account is made; the page asks
-- whether there is a user; a request that created the user closes the page.
pub data Step : World → World → Type 0 where
  lock : (w : World) → w.phase ≡ free → Step w (at_phase locked w)
  check : (w : World) → w.phase ≡ locked → Step w (check_empty w)
  make :
      (w : World) (id : Text) (user : NewUser)
      → w.phase ≡ found_none
      → Step w (create_user id user w)
  link : (w : World) (id : Text) → w.phase ≡ made id → Step w (create_account id w)
  fail : (w : World) → Step w (at_phase free w)
  join : (w : World) (user : AdminUser) → Step w (add_user user w)
  ask : (w : World) → Step w (begin_pending w)
  answer :
      (w : World) (a : Bool) (rest : List Bool) → w.reads ≡ a ∷ rest → Step w (end_pending a rest w)
  close : (w : World) → w.created ≢ [] → Step w (mark_setup_complete w)

pub data Reach (s : World) : World → Type 0 where
  here : Reach s s
  next : {t u : World} → Reach s t → Step t u → Reach s u

-- The phase allows a user to be made.
abbrev is_making : Phase → Bool
is_making found_none = true
is_making (made id) = true
is_making _ = false

abbrev has_made : Phase → Bool
has_made (made id) = true
has_made _ = false

-- At most one request has created a user, none while one is about to, and the page is closed only over a
-- table with a user.
pub record IsSetUp (w : World) : Type 0 where
  pub single : length w.created ≤ 1
  pub making : is_making w.phase ≡ true → w.created ≡ []
  pub present : w.created ≢ [] → w.users ≢ []
  pub made_present : has_made w.phase ≡ true → w.users ≢ []
  pub closed : w.pending ≡ some false → w.users ≢ []
  pub answered : In false w.reads → w.users ≢ []

added : {A : Type 0} (xs : List A) (x : A) → xs ++ x ∷ [] ≢ []
added [] x e = cc
added (y ∷ xs) x e = cc

-- A user is added, and nothing else of the invariant's facts is.
module _ {w : World} (s : IsSetUp w) where
  none_created : w.users ≡ [] → w.created ≡ []
  none_created e = elim (List-cases w.created) [
    | inl n ↦ n
    | inr (c, cs, n) ↦ absurd (s.present (λ q. cc (n, q)) e)
  ]

  check-IsSetUp : IsSetUp (check_empty w)
  unfolding check_empty
  check-IsSetUp = elim (List-cases w.users) [
    | inl e ↦ record {
      single = s.single;
      making = λ h. none_created e;
      present = s.present;
      made_present = λ h. absurd (ground (arith, e, h));
      closed = s.closed;
      answered = s.answered;
    }
    | inr (u, us, e) ↦ record {
      single = s.single;
      making = λ h. absurd (ground (arith, e, h));
      present = s.present;
      made_present = λ h. absurd (ground (arith, e, h));
      closed = s.closed;
      answered = s.answered;
    }
  ]

  ask-IsSetUp : IsSetUp (begin_pending w)
  unfolding begin_pending
  ask-IsSetUp = record {
    single = s.single;
    making = s.making;
    present = s.present;
    made_present = s.made_present;
    closed = s.closed;
    answered = elim (Bool-cases (is_closed w.pending)) [
      | inl c ↦ rw c s.answered
      | inr o ↦ rw o (elim [ inl e ↦ (λ q. cc (e, q)) | inr i ↦ s.answered i ])
    ];
  }

  answer-IsSetUp :
      (a : Bool) (rest : List Bool) → w.reads ≡ a ∷ rest → IsSetUp (end_pending a rest w)
  unfolding end_pending
  answer-IsSetUp a rest e = record {
    single = s.single;
    making = s.making;
    present = s.present;
    made_present = s.made_present;
    closed = λ h. s.answered (subst (In false) (sym e) (inl (some_inj h)));
    answered = λ i. s.answered (subst (In false) (sym e) (inr i));
  }

step-IsSetUp : {w v : World} → Step w v → IsSetUp w → IsSetUp v
unfolding create_user create_account mark_setup_complete
step-IsSetUp (lock w e) s = record {
  single = s.single;
  making = λ h. cc h;
  present = s.present;
  made_present = λ h. cc h;
  closed = s.closed;
  answered = s.answered;
}
step-IsSetUp (check w e) s = check-IsSetUp s
step-IsSetUp (make w id user e) s = record {
  single = s.single;
  making = λ h. s.making (ap is_making e);
  present = λ n. added w.users _;
  made_present = λ h. added w.users _;
  closed = λ h. added w.users _;
  answered = λ i. added w.users _;
}
step-IsSetUp (link w id e) s = record {
  single = ground (arith, ap length (s.making (ap is_making e)));
  making = λ h. cc h;
  present = λ n. s.made_present (ap has_made e);
  made_present = λ h. cc h;
  closed = s.closed;
  answered = s.answered;
}
step-IsSetUp (fail w) s = record {
  single = s.single;
  making = λ h. cc h;
  present = s.present;
  made_present = λ h. cc h;
  closed = s.closed;
  answered = s.answered;
}
step-IsSetUp (join w user) s = record {
  single = s.single;
  making = s.making;
  present = λ n. added w.users user;
  made_present = λ h. added w.users user;
  closed = λ h. added w.users user;
  answered = λ i. added w.users user;
}
step-IsSetUp (ask w) s = ask-IsSetUp s
step-IsSetUp (answer w a rest e) s = answer-IsSetUp s a rest e
step-IsSetUp (close w n) s = record {
  single = s.single;
  making = s.making;
  present = s.present;
  made_present = s.made_present;
  closed = λ h. s.present n;
  answered = s.answered;
}

-- From a state that satisfies the invariant, such as an empty deployment, and however setup
-- requests, their failures, other accounts and the page's questions interleave, the invariant holds:
-- at most one request reports that it created the first user, none is about to create one after
-- that, and the page is closed only once there is a user.
pub Reach-IsSetUp : {s w : World} → IsSetUp s → Reach s w → IsSetUp w
Reach-IsSetUp h here = h
Reach-IsSetUp h (next r st) = step-IsSetUp st (Reach-IsSetUp h r)

-- No setup request is past its check, and there is a user.
pub record IsClosed (w : World) : Type 0 where
  pub idle : is_making w.phase ≡ false
  pub user : w.users ≢ []

step-IsClosed :
    {w v : World}
    → Step w v
    → IsClosed w
    → IsClosed v × (v.created ≡ w.created) × (v.accounts ≡ w.accounts)
unfolding check_empty create_user create_account mark_setup_complete begin_pending end_pending
step-IsClosed (lock w e) c = (record { idle = refl; user = c.user }, refl, refl)
step-IsClosed (check w e) c = elim (List-cases w.users) [
  | inl n ↦ absurd (c.user n)
  | inr (u, us, n) ↦ (record { idle = ground (arith, n); user = c.user }, refl, refl)
]
step-IsClosed (make w id user e) c = absurd (cc (c.idle, ap is_making e))
step-IsClosed (link w id e) c = absurd (cc (c.idle, ap is_making e))
step-IsClosed (fail w) c = (record { idle = refl; user = c.user }, refl, refl)
step-IsClosed (join w user) c = (record { idle = c.idle; user = added w.users user }, refl, refl)
step-IsClosed (ask w) c = (record { idle = c.idle; user = c.user }, refl, refl)
step-IsClosed (answer w a rest e) c = (record { idle = c.idle; user = c.user }, refl, refl)
step-IsClosed (close w n) c = (record { idle = c.idle; user = c.user }, refl, refl)

-- Once there is any user, and no setup request is between its check and its account, no setup request
-- ever creates a user or links a password again, also where the one that made the user failed before
-- it had linked one: no later request gives that user a password.
pub Reach-IsClosed :
    {s w : World}
    → IsClosed s
    → Reach s w
    → IsClosed w × (w.created ≡ s.created) × (w.accounts ≡ s.accounts)
Reach-IsClosed c here = (c, refl, refl)
Reach-IsClosed c (next r st) =
    let (d, e, a) = Reach-IsClosed c r in (let (f, g, b) = step-IsClosed st d in (f, g ∙ e, b ∙ a))
