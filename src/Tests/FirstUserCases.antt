-- ===== src/Tests/FirstUserCases.antt =====
-- The setup of the first user.
use semantius_idp.Prelude.{In, [], codes, false, none, refl, some, trim, true, ◌∷◌, ◌≡◌, arith}
use semantius_idp.Roles.{split_roles}
use semantius_idp.Roles.Laws.{IsRoleName}
use semantius_idp.Admin.LastAdmin.{HasAdmin}
use semantius_idp.FirstUser.{
  FirstUserInput, NewUser, new_user, first_user_role, first_last, World, free, create_user,
  create_account, at_phase, check_empty, locked,
}
use semantius_idp.FirstUser.Laws.{Step, Reach, IsSetUp, IsClosed, Reach-IsSetUp, Reach-IsClosed}
use semantius_idp.FirstUser.Role.{first_user_administers}

abbrev unset : World
unset = record { users = []; accounts = []; phase = free; created = []; pending = none; reads = [] }

abbrev ada : NewUser
ada = record {
  email = codes "ada@example.com";
  name = codes "Ada";
  first_name = some (codes "Ada");
  last_name = none;
  email_verified = true;
  role = codes "admin,user";
  status = codes "active";
  must_change_password = false;
}

abbrev made_up : World
made_up = create_user (codes "1") ada (check_empty (at_phase locked unset))

-- The request that sets the deployment up, from the lock to the account
set_up-Reach : Reach unset (create_account (codes "1") made_up)
set_up-Reach =
    Reach.next
      (Reach.next
        (Reach.next (Reach.next Reach.here (Step.lock unset refl))
          (Step.check (at_phase locked unset) refl))
        (Step.make (check_empty (at_phase locked unset)) (codes "1") ada
          (unfold check_empty in refl)))
      (Step.link made_up (codes "1") (unfold create_user in refl))

unset-IsSetUp : IsSetUp unset
unset-IsSetUp = record {
  single = ground (arith);
  making = λ h. refl;
  present = λ n. absurd (n refl);
  made_present = λ h. cc h;
  closed = λ h. cc h;
  answered = λ i. absurd i;
}

Reach-IsSetUp_example : IsSetUp (create_account (codes "1") made_up)
Reach-IsSetUp_example = Reach-IsSetUp unset-IsSetUp set_up-Reach

-- The request failed after it had made the user.
abbrev failed : World
failed = at_phase free made_up

failed-IsClosed : IsClosed failed
unfolding create_user check_empty
failed-IsClosed = record { idle = refl; user = λ e. cc e }

Reach-IsClosed_example :
    IsClosed (check_empty (at_phase locked failed))
    × ((check_empty (at_phase locked failed)).created ≡ failed.created)
    × ((check_empty (at_phase locked failed)).accounts ≡ failed.accounts)
Reach-IsClosed_example = Reach-IsClosed failed-IsClosed (
    Reach.next (Reach.next Reach.here (Step.lock failed refl))
      (Step.check (at_phase locked failed) refl))

abbrev typed : FirstUserInput
typed = record { email = codes "ada@x.org"; first_name = codes "Ada"; last_name = [] }

admin_IsRoleName : IsRoleName (codes "admin")
unfolding trim
admin_IsRoleName = record { filled = λ e. cc; trimmed = refl; whole = ground arith }

user_IsRoleName : IsRoleName (codes "user")
unfolding trim
user_IsRoleName = record { filled = λ e. cc; trimmed = refl; whole = ground arith }

first_user_administers_example :
    HasAdmin
      (codes "admin" ∷ [])
      5
      (create_user
        (codes "1")
        (new_user (λ t. t) first_last (codes "admin" ∷ []) (codes "user") typed)
        unset).users
    × In (codes "user") (split_roles (some (first_user_role (codes "admin" ∷ []) (codes "user"))))
first_user_administers_example =
    first_user_administers (λ t. t) first_last (codes "admin") [] (codes "user") typed (codes "1") 5
      unset admin_IsRoleName user_IsRoleName
