-- ===== src/Admin/Action/Laws.antt =====
-- Which patches carry a rule.
use semantius_idp.Prelude.{
  Text, codes, text_eq_iff, true, false, Option, none, some, some_inj, ◌≡◌, ◌≢◌, ◌↔◌, ◌⊎◌, inl, inr,
  refl, ap, arith, Bool-cases,
}
use semantius_idp.Js.{Value, null, bool, num, str, arr, obj, Fields, get}
use semantius_idp.Standing.{status_active}
use semantius_idp.Admin.Action.{
  no_action, patch_action, is_true_value, is_active_value, role_action, status_then_role,
}

-- A role that the patch does not set to a text or a list.
abbrev pub IsNoRole : Option Value → Type 0
IsNoRole (some (str s)) = ⊥
IsNoRole (some (arr vs)) = ⊥
IsNoRole _ = Unit

str_inj : {s t : Text} → str s ≡ str t → s ≡ t
str_inj e = cc

not_banning_iff : (v : Option Value) → (is_true_value v ≡ false) ↔ (v ≢ some (bool true))
not_banning_iff (some (bool true)) = (λ h. cc, λ n. absurd (n refl))
not_banning_iff (some (bool false)) = (λ h e. cc, λ n. refl)
not_banning_iff none = (λ h e. cc, λ n. refl)
not_banning_iff (some null) = (λ h e. cc, λ n. refl)
not_banning_iff (some (num k)) = (λ h e. cc, λ n. refl)
not_banning_iff (some (str t)) = (λ h e. cc, λ n. refl)
not_banning_iff (some (arr vs)) = (λ h e. cc, λ n. refl)
not_banning_iff (some (obj fs)) = (λ h e. cc, λ n. refl)

IsNoRole-iff : (v : Option Value) → (role_action v ≡ no_action) ↔ IsNoRole v
IsNoRole-iff none = (λ h. tt, λ h. refl)
IsNoRole-iff (some (str t)) = (λ h. cc, λ h. absurd h)
IsNoRole-iff (some (arr vs)) = (λ h. cc, λ h. absurd h)
IsNoRole-iff (some null) = (λ h. tt, λ h. refl)
IsNoRole-iff (some (bool b)) = (λ h. tt, λ h. refl)
IsNoRole-iff (some (num k)) = (λ h. tt, λ h. refl)
IsNoRole-iff (some (obj fs)) = (λ h. tt, λ h. refl)

abbrev IsStatusKept : Option Value → Type 0
IsStatusKept v = (v ≡ none) ⊎ (v ≡ some (str status_active))

kept_value_iff : (v : Value) → (is_active_value v ≡ true) ↔ (v ≡ str status_active)
kept_value_iff (str t) =
    let (to, from) = text_eq_iff t status_active in (λ h. ap str (to h), λ e. from (str_inj e))
kept_value_iff null = (λ h. cc, λ e. cc)
kept_value_iff (bool b) = (λ h. cc, λ e. cc)
kept_value_iff (num k) = (λ h. cc, λ e. cc)
kept_value_iff (arr vs) = (λ h. cc, λ e. cc)
kept_value_iff (obj fs) = (λ h. cc, λ e. cc)

IsStatusKept-iff :
    (v role : Option Value)
    → (status_then_role v role ≡ no_action) ↔ (IsStatusKept v × (role_action role ≡ no_action))
IsStatusKept-iff none role = (λ h. (inl refl, h), λ (k, h). h)
IsStatusKept-iff (some v) role =
    let (to, from) = kept_value_iff v in
    elim (Bool-cases (is_active_value v)) [
      | inl e ↦ (λ h. (inr (ap some (to e)), rw e at h), λ (k, h). rw e h)
      | inr e ↦ (
        λ h. ground (arith, e, h),
        λ (k, h). elim k [ inl p ↦ cc | inr p ↦ ground (arith, from (some_inj p), e) ],
      )
    ]

-- A patch carries no invariant exactly when it does not set `banned` to true, leaves the status
-- alone or sets it to `active`, and gives no role as a text or a list.
pub patch_no_action_iff :
    (fs : Fields)
    → (patch_action fs ≡ no_action) ↔ (
        (get (codes "banned") fs ≢ some (bool true))
        × ((get (codes "status") fs ≡ none) ⊎ (get (codes "status") fs ≡ some (str status_active)))
        × IsNoRole (get (codes "role") fs))
unfolding patch_action
patch_no_action_iff fs =
    let ban = not_banning_iff (get (codes "banned") fs) in
    let rest = IsStatusKept-iff (get (codes "status") fs) (get (codes "role") fs) in
    let role = IsNoRole-iff (get (codes "role") fs) in
    (
      λ h.
          let calm : is_true_value (get (codes "banned") fs) ≡ false = ground (arith, h) in
          let (kept, quiet) = rest.0 (rw calm at h) in (ban.0 calm, kept, role.0 quiet),
      λ (b, k, r). rw (ban.1 b) (rest.1 (k, role.1 r)),
    )
