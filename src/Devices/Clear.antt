-- ===== src/Devices/Clear.antt =====
-- Forgetting trusted browsers: apps/web/src/server/auth/trusted-devices.ts.
use semantius_idp.Prelude.{
  Text, text_eq, text_eq_iff, starts_with, is_empty, keep, In, In-keep_iff, cons_of_In, List-cases,
  subst, Bool, true, not, ◌&&◌, List, [], ◌∷◌, ◌≡◌, ◌≢◌, ◌↔◌, inl, inr, refl, sym, arith,
  Bool-cases,
}
use semantius_idp.Devices.{
  Row, trust_device_prefix, trusted_devices_of, clear_trusted_device, clear_trusted_devices,
  list_trusted_devices, sort_devices,
}

-- The row is a browser that the user trusts.
abbrev pub Trusts : Text → Row → Type 0
Trusts user_id row = (row.value ≡ user_id) × (starts_with row.identifier trust_device_prefix ≡ true)

trusted_devices_of_iff :
    (user_id : Text) (row : Row) → (trusted_devices_of user_id row ≡ true) ↔ Trusts user_id row
unfolding trusted_devices_of
trusted_devices_of_iff user_id row = (
  λ h. ((text_eq_iff row.value user_id).0 (ground (arith, h)), ground (arith, h)),
  λ h. ground (arith, (text_eq_iff row.value user_id).1 h.0, h.1),
)

-- Forgetting a user's browsers deletes exactly the rows of those, all other rows of the table stay.
pub clear_all_iff :
    (user_id : Text) (rows : List Row) (row : Row)
    → In row (clear_trusted_devices user_id rows).0 ↔ (In row rows × ¬ Trusts user_id row)
unfolding clear_trusted_devices
clear_all_iff user_id rows row =
    let (to, from) = In-keep_iff (λ r. not (trusted_devices_of user_id r)) row rows in
    let (test, back) = trusted_devices_of_iff user_id row in
    (
      λ i. let (j, n) = to i in (j, λ t. ground (arith, n, back t)),
      λ (i, n). from (
        i,
        elim (Bool-cases (trusted_devices_of user_id row)) [
          | inl h ↦ absurd (n (test h))
          | inr h ↦ ground (arith, h)
        ],
      ),
    )

is_filled_iff :
    {A : Type 0} (p : A → Bool) (xs : List A)
    → (not (is_empty (keep p xs)) ≡ true) ↔ ((a : A) × In a xs × (p a ≡ true))
is_filled_iff p xs = (
  λ h. elim (List-cases (keep p xs)) [
    | inl e ↦ absurd (ground (arith, e, h))
    | inr (y, ys, e) ↦
        let (i, t) = (In-keep_iff p y xs).0 (subst (In y) (sym e) (inl refl)) in (y, i, t)
  ],
  λ (a, i, t).
      let (y, ys, e) = cons_of_In a (keep p xs) ((In-keep_iff p a xs).1 (i, t)) in rw (e) refl,
)

abbrev aimed : Text → Text → Row → Bool
aimed user_id id row = text_eq row.id id && trusted_devices_of user_id row

aimed_iff :
    (user_id id : Text) (row : Row)
    → (aimed user_id id row ≡ true) ↔ ((row.id ≡ id) × Trusts user_id row)
aimed_iff user_id id row =
    let (test, back) = trusted_devices_of_iff user_id row in
    (
      λ h. ((text_eq_iff row.id id).0 (ground (arith, h)), test (ground (arith, h))),
      λ (e, t). ground (arith, (text_eq_iff row.id id).1 e, back t),
    )

-- Forgetting one browser deletes nothing but a row with that id, of that user, of a trusted browser,
-- and it answers `true` exactly when there was one; the empty id deletes nothing.
pub clear_one_iff :
    (user_id id : Text) (rows : List Row)
    → ((row : Row)
        → In row (clear_trusted_device user_id id rows).0
          ↔ (In row rows × ¬ ((id ≢ []) × (row.id ≡ id) × Trusts user_id row)))
      × (((clear_trusted_device user_id id rows).1 ≡ true)
          ↔ ((row : Row) × In row rows × (id ≢ []) × (row.id ≡ id) × Trusts user_id row))
unfolding clear_trusted_device
clear_one_iff user_id [] rows =
    (λ row. (λ i. (i, λ m. m.0 refl), λ (i, n). i), (λ h. cc, λ m. absurd (m.2 refl)))
clear_one_iff user_id (c ∷ id) rows = (
  λ row.
      let (to, from) = In-keep_iff (λ r. not (aimed user_id (c ∷ id) r)) row rows in
      let (test, back) = aimed_iff user_id (c ∷ id) row in
      (
        λ i. let (j, n) = to i in (j, λ (m, e, t). ground (arith, n, back (e, t))),
        λ (i, n). from (
          i,
          elim (Bool-cases (aimed user_id (c ∷ id) row)) [
            | inl h ↦ let (e, t) = test h in absurd (n (λ q. cc, e, t))
            | inr h ↦ ground (arith, h)
          ],
        ),
      ),
  (
    λ h.
        let (row, i, t) = (is_filled_iff (aimed user_id (c ∷ id)) rows).0 h in
        (let (e, u) = (aimed_iff user_id (c ∷ id) row).0 t in (row, i, λ q. cc, e, u)),
    λ (row, i, n, e, t).
        (is_filled_iff (aimed user_id (c ∷ id)) rows).1
          (row, i, (aimed_iff user_id (c ∷ id) row).1 (e, t)),
  ),
)

-- Once a user's browsers are forgotten, the page lists none.
pub list-clear :
    (user_id : Text) (rows : List Row)
    → list_trusted_devices user_id (clear_trusted_devices user_id rows).0 ≡ []
unfolding list_trusted_devices sort_devices clear_trusted_devices
list-clear user_id [] = refl
list-clear user_id (row ∷ rows) = elim (Bool-cases (trusted_devices_of user_id row)) [
  | inl h ↦ rw (h) (list-clear user_id rows)
  | inr h ↦ rw (h, h) (list-clear user_id rows)
]
