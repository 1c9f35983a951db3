-- ===== src/Standing.antt =====
-- Whether an account may be used: `assertUserMaySignIn` of
-- apps/web/src/server/auth/options/database-hooks.ts and the gate chain of
-- apps/web/src/server/oidc/gate-chain.ts.
pub mod Laws
pub mod Hooks
use semantius_idp.Prelude.{
  ℕ, Text, String, codes, text_eq, Bool, true, false, not, ◌&&◌, Option, none, some, or_else,
  if◌then◌else◌, leb, is_empty,
}

-- A JavaScript `Date`: milliseconds since the epoch, or the invalid date.
pub data Date : Type 0 where
  valid : ℕ → Date
  invalid : Date

-- `banExpires`: `null` or `undefined`, a `Date`, or a text that `new Date` reads.
pub data Expiry : Type 0 where
  unset : Expiry
  date : Date → Expiry
  text : Text → Expiry

-- The columns of a user row that the gates read.
pub record GateUser : Type 0 where
  pub status : Option Text
  pub banned : Option Bool
  pub ban_expires : Expiry
  pub must_change_password : Option Bool

abbrev pub status_pending : Text
status_pending = codes "pending"

abbrev pub status_rejected : Text
status_rejected = codes "rejected"

abbrev pub status_active : Text
status_active = codes "active"

-- `flag === true`
abbrev pub is_true : Option Bool → Bool
is_true (some b) = b
is_true none = false

-- `Number.isFinite(expiry.getTime()) && expiry.getTime() <= Date.now()`
abbrev pub date_reached : ℕ → Date → Bool
date_reached now (valid t) = leb t now
date_reached now invalid = false

-- The refusals of `assertUserMaySignIn`: `GATE_ERROR_CODES`.
pub data GateError : Type 0 where
  account_banned account_pending_approval account_rejected : GateError

pub data Gate : Type 0 where
  signin pending banned change_password : Gate

-- `new Date(text)` is the platform's.
module _ (parse_date : Text → Date) (now : ℕ) where
  -- `banHasExpired`, the same in both files; an empty text is falsy.
  unfoldable pub ban_has_expired : Expiry → Bool
  ban_has_expired unset = false
  ban_has_expired (date d) = date_reached now d
  ban_has_expired (text s) = not (is_empty s) && date_reached now (parse_date s)

  -- `assertUserMaySignIn`; `none` is a return.
  unfoldable pub assert_user_may_sign_in : GateUser → Option GateError
  assert_user_may_sign_in user =
      let status = or_else user.status status_pending in
      if is_true user.banned && not (ban_has_expired user.ban_expires)
      then some account_banned
      else if text_eq status status_pending
      then some account_pending_approval
      else if text_eq status status_rejected
      then some account_rejected
      else none

  -- `nextGate` for a user who is signed in
  next_gate_of : GateUser → Option Gate
  next_gate_of user =
      let status = or_else user.status status_pending in
      if is_true user.banned && not (ban_has_expired user.ban_expires)
      then some banned
      else if text_eq status status_pending
      then some pending
      else if text_eq status status_rejected
      then some banned
      else if is_true user.must_change_password
      then some change_password
      else none

  -- `nextGate`
  unfoldable pub next_gate : Option GateUser → Option Gate
  unfolding next_gate_of
  next_gate none = some signin
  next_gate (some user) = next_gate_of user

-- `gateResumes`
unfoldable pub gate_resumes : Gate → Bool
gate_resumes signin = true
gate_resumes change_password = true
gate_resumes _ = false

-- `gateRoute`, with the paths of `APP_ROUTES`
unfoldable pub gate_route : Gate → Text
gate_route signin = codes "/login"
gate_route pending = codes "/pending-approval"
gate_route banned = codes "/banned"
gate_route change_password = codes "/change-password"
