-- ===== src/Standing/Laws.antt =====
-- What the two checks accept, and that they agree.
use semantius_idp.Prelude.{
  ℕ, ◌≤◌, Text, text_eq, text_eq_iff, Bool, true, false, Option, none, some, or_else, [], ◌∷◌, not,
  text_eq_refl, ◌&&◌, ◌≡◌, ◌≢◌, ◌↔◌, ◌⊎◌, refl, arith, leb→le, le→leb, false_of_ne_true,
}
use semantius_idp.Standing.{
  Date, valid, invalid, Expiry, unset, date, text, GateUser, status_pending, status_rejected, Gate,
  pending, banned, date_reached, is_true, ban_has_expired, assert_user_may_sign_in, next_gate,
  gate_resumes,
}

-- A status that is set, and is neither `pending` nor `rejected`.
abbrev pub IsOpenStatus : Option Text → Type 0
IsOpenStatus status = (s : Text) × (status ≡ some s) × (s ≢ status_pending) × (s ≢ status_rejected)

-- The status tests that both checks make.
open_test : Option Text → Bool
open_test status =
    not (text_eq (or_else status status_pending) status_pending)
    && not (text_eq (or_else status status_pending) status_rejected)

text_ne : (s t : Text) → s ≢ t → text_eq s t ≡ false
text_ne s t n = false_of_ne_true _ (λ e. n ((text_eq_iff s t).0 e))

open_test_iff : (status : Option Text) → (open_test status ≡ true) ↔ IsOpenStatus status
unfolding open_test
open_test_iff none = (λ h. ground (arith, text_eq_refl status_pending), λ (s, e, n, m). cc)
open_test_iff (some s) = (
  λ h. (
    s,
    refl,
    λ e. ground (arith, (text_eq_iff s status_pending).1 e),
    λ e. ground (arith, (text_eq_iff s status_rejected).1 e),
  ),
  λ (t, e, n, m). ground (arith, text_ne t status_pending n, text_ne t status_rejected m),
)

module _ (parse_date : Text → Date) (now : ℕ) where
  -- An expiry that names an instant which has come.
  pub data Lapsed : Expiry → Type 0 where
    at_date : {t : ℕ} → t ≤ now → Lapsed (date (valid t))
    at_text : {s : Text} {t : ℕ} → s ≢ [] → parse_date s ≡ valid t → t ≤ now → Lapsed (text s)

  Lapsed-date : {t : ℕ} → Lapsed (date (valid t)) → t ≤ now
  Lapsed-date (at_date h) = h

  Lapsed-text :
      {s : Text} → Lapsed (text s) → (t : ℕ) × (s ≢ []) × (parse_date s ≡ valid t) × (t ≤ now)
  Lapsed-text (at_text {t} n e h) = (t, n, e, h)

  not-Lapsed_invalid : ¬ Lapsed (date invalid)
  not-Lapsed_invalid h = elim h [ ]

  not-Lapsed-unset : ¬ Lapsed unset
  not-Lapsed-unset h = elim h [ ]

  Lapsed-of_reached :
      (s : Text) (d : Date)
      → s ≢ []
      → parse_date s ≡ d
      → date_reached now d ≡ true
      → Lapsed (text s)
  Lapsed-of_reached s (valid t) n e h = at_text n e (leb→le t now h)
  Lapsed-of_reached s invalid n e h = cc

  -- `banHasExpired` tells exactly whether the expiry has come.
  pub ban_has_expired_iff : (e : Expiry) → (ban_has_expired parse_date now e ≡ true) ↔ Lapsed e
  unfolding ban_has_expired
  ban_has_expired_iff unset = (λ h. cc, λ h. absurd (not-Lapsed-unset h))
  ban_has_expired_iff (date (valid t)) =
      (λ h. at_date (leb→le t now h), λ h. le→leb t now (Lapsed-date h))
  ban_has_expired_iff (date invalid) = (λ h. cc, λ h. absurd (not-Lapsed_invalid h))
  ban_has_expired_iff (text []) = (λ h. cc, λ h. absurd ((Lapsed-text h).1 refl))
  ban_has_expired_iff (text (c ∷ s)) = (
    λ h. Lapsed-of_reached (c ∷ s) (parse_date (c ∷ s)) (λ e. cc) refl h,
    λ h. let (t, n, e, le) = Lapsed-text h in rw e (le→leb t now le),
  )

  -- The ban flag is set, and no expiry has come.
  abbrev pub IsBanned : GateUser → Type 0
  IsBanned user = (user.banned ≡ some true) × ¬ Lapsed user.ban_expires

  -- The approval state lets the account be used.
  abbrev pub IsOpen : GateUser → Type 0
  IsOpen user = IsOpenStatus user.status

  banned_test : GateUser → Bool
  banned_test user = is_true user.banned && not (ban_has_expired parse_date now user.ban_expires)

  banned_test_iff : (user : GateUser) → (banned_test user ≡ true) ↔ IsBanned user
  unfolding banned_test
  banned_test_iff user =
      let (to, from) = ban_has_expired_iff user.ban_expires in
      (
        λ h. (ground arith, λ l. ground (arith, from l)),
        λ (b, n). let e = false_of_ne_true _ (λ l. n (to l)) in ground arith,
      )

  -- A user may sign in exactly when no ban is in force and the status is set, and is neither
  -- `pending` nor `rejected`.
  pub may_sign_in_iff :
      (user : GateUser)
      → (assert_user_may_sign_in parse_date now user ≡ none) ↔ (¬ IsBanned user × IsOpen user)
  unfolding assert_user_may_sign_in banned_test open_test
  may_sign_in_iff user =
      let (to, from) = banned_test_iff user in
      let (open_to, open_from) = open_test_iff user.status in
      (
        λ h. (λ b. ground (arith, from b), open_to (ground arith)),
        λ (n, o). ground (arith, false_of_ne_true _ (λ b. n (to b)), open_from o),
      )

  -- The gate chain stops a signed-in user at the ban or approval page exactly when sign-in would
  -- be refused, and lets the request through exactly when sign-in is allowed and no password
  -- change is due.
  pub next_gate-agrees :
      (user : GateUser)
      → ((next_gate parse_date now (some user) ≡ none) ↔ (
          (assert_user_may_sign_in parse_date now user ≡ none)
          × (is_true user.must_change_password ≡ false)))
        × (((next_gate parse_date now (some user) ≡ some banned)
              ⊎ (next_gate parse_date now (some user) ≡ some pending))
            ↔ (assert_user_may_sign_in parse_date now user ≢ none))
  unfolding next_gate assert_user_may_sign_in
  next_gate-agrees user = ground arith

  -- A gate carries the way back to the request exactly when the account itself is not refused.
  pub gate_resumes_iff :
      (user : GateUser) (gate : Gate)
      → next_gate parse_date now (some user) ≡ some gate
      → (gate_resumes gate ≡ true) ↔ (assert_user_may_sign_in parse_date now user ≡ none)
  unfolding next_gate assert_user_may_sign_in gate_resumes
  gate_resumes_iff user gate h = ground arith
