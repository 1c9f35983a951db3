-- ===== src/Devices/Laws.antt =====
-- How long a browser is trusted, however often its row is written anew:
-- apps/web/src/server/auth/trusted-devices.ts.
use semantius_idp.Prelude.{
  ℕ, ◌+◌, ◌≤◌, Text, keep, In, In-keep_iff, Bool, true, false, not, Option, none, some, or_option,
  or_else, List, ◌∷◌, ◌≡◌, inl, inr, refl, ap, sym, ◌∙◌, subst, arith, Bool-cases, text_eq,
}
use semantius_idp.Devices.{
  Row, Entity, is_trusted_device_identifier, cap_trusted_device_expiry, delete_before,
  create_before,
}

-- The table, and the times at which a user ticked the box
pub record World : Type 0 where
  pub rows : List Row
  pub ticked : List ℕ

abbrev pub entity_of : Row → Entity
entity_of row = record {
  identifier = row.identifier;
  created_at = some row.created_at;
  expires_at = some row.expires_at;
}

-- The row that `create` writes: with the hook's dates, where the hook gives some.
abbrev pub written : Row → Option (ℕ × ℕ) → Row
written row none = row
written row (some (created_at, expires_at)) = record {
  id = row.id;
  identifier = row.identifier;
  value = row.value;
  created_at = created_at;
  expires_at = expires_at;
}

abbrev pub drop_row : Text → List Row → List Row
drop_row id rows = keep (λ r. not (text_eq r.id id)) rows

-- One request: the box is ticked; a sign-in deletes a trusted row and writes another, with any dates;
-- rows are deleted; a row of another kind is written.
pub data Step (ceiling : ℕ) : World → World → Type 0 where
  tick :
      (w : World) (row : Row) (now : ℕ)
      → row.created_at ≡ now
      → Step ceiling w (record {
        rows = written row (create_before ceiling now none (entity_of row)) ∷ w.rows;
        ticked = now ∷ w.ticked;
      })
  rotate :
      (w : World) (old new : Row) (now : ℕ)
      → In old w.rows
      → is_trusted_device_identifier old.identifier ≡ true
      → Step ceiling w (record {
        rows =
            written new
              (create_before ceiling now (delete_before (entity_of old) none) (entity_of new))
            ∷ drop_row old.id w.rows;
        ticked = w.ticked;
      })
  drop :
      (w : World) (p : Row → Bool)
      → Step ceiling w (record { rows = keep p w.rows; ticked = w.ticked })
  other :
      (w : World) (row : Row) (now : ℕ)
      → is_trusted_device_identifier row.identifier ≡ false
      → Step ceiling w (record {
        rows = written row (create_before ceiling now none (entity_of row)) ∷ w.rows;
        ticked = w.ticked;
      })

pub data Reach (ceiling : ℕ) (s : World) : World → Type 0 where
  here : Reach ceiling s s
  next : {t u : World} → Reach ceiling s t → Step ceiling t u → Reach ceiling s u

-- The row dates from a time the box was ticked, and ends within the ceiling from then.
abbrev pub IsBounded : ℕ → List ℕ → Row → Type 0
IsBounded ceiling ticked row =
    In row.created_at ticked × (row.expires_at ≤ row.created_at + ceiling)

abbrev pub AreBounded : ℕ → World → Type 0
AreBounded ceiling w =
    (row : Row)
    → In row w.rows
    → is_trusted_device_identifier row.identifier ≡ true
    → IsBounded ceiling w.ticked row

cap_le :
    (first requested ceiling : ℕ)
    → cap_trusted_device_expiry first requested ceiling ≤ first + ceiling
unfolding cap_trusted_device_expiry
cap_le first requested ceiling = ground arith

-- What the hook writes, for a trusted row whose first issue is known
written-IsBounded :
    (ceiling now first : ℕ) (stashed : Option ℕ) (ticked : List ℕ) (row : Row)
    → In first ticked
    → or_else (or_option stashed (some row.created_at)) now ≡ first
    → is_trusted_device_identifier
        (written row (create_before ceiling now stashed (entity_of row))).identifier
      ≡ true
    → IsBounded ceiling ticked (written row (create_before ceiling now stashed (entity_of row)))
unfolding create_before
written-IsBounded ceiling now first stashed ticked row i e t =
    elim (Bool-cases (is_trusted_device_identifier row.identifier)) [
      | inl h ↦ rw (h) (subst (λ f. In f ticked) (sym e) i, cap_le _ row.expires_at ceiling)
      | inr h ↦ absurd (ground (arith, h, rw (h) at t))
    ]

stash_lem :
    (old : Row)
    → is_trusted_device_identifier old.identifier ≡ true
    → delete_before (entity_of old) none ≡ some old.created_at
unfolding delete_before
stash_lem old h = ground (arith, h)

later_bound :
    (ceiling now : ℕ) (ticked : List ℕ) (row : Row)
    → IsBounded ceiling ticked row
    → IsBounded ceiling (now ∷ ticked) row
later_bound ceiling now ticked row (i, l) = (inr i, l)

written-identifier : (row : Row) (d : Option (ℕ × ℕ)) → (written row d).identifier ≡ row.identifier
written-identifier row none = refl
written-identifier row (some (c, e)) = refl

module _ (ceiling : ℕ) where
  step-AreBounded : (w v : World) → Step ceiling w v → AreBounded ceiling w → AreBounded ceiling v
  step-AreBounded w v (tick _ row now e) h r (inl same) t =
      subst (IsBounded ceiling (now ∷ w.ticked)) same (
        written-IsBounded ceiling now now none (now ∷ w.ticked) row (inl refl) e
          (subst (λ x. is_trusted_device_identifier x.identifier ≡ true) (sym same) t))
  step-AreBounded w v (tick _ row now e) h r (inr i) t =
      later_bound ceiling now w.ticked r (h r i t)
  step-AreBounded w v (rotate _ old new now o p) h r (inl same) t =
      subst (IsBounded ceiling w.ticked) same (
        written-IsBounded ceiling now old.created_at (delete_before (entity_of old) none) w.ticked
          new (h old o p).0 (rw (stash_lem old p) refl)
          (subst (λ x. is_trusted_device_identifier x.identifier ≡ true) (sym same) t))
  step-AreBounded w v (rotate _ old new now o p) h r (inr i) t =
      h r ((In-keep_iff _ r w.rows).0 i).0 t
  step-AreBounded w v (drop _ p) h r i t = h r ((In-keep_iff p r w.rows).0 i).0 t
  step-AreBounded w v (other _ row now n) h r (inl same) t = absurd (
      ground (
        arith,
        n,
        ap is_trusted_device_identifier (
            sym (written-identifier row (create_before ceiling now none (entity_of row)))
            ∙ ap (λ x. x.identifier) same),
        t,
      ))
  step-AreBounded w v (other _ row now n) h r (inr i) t = h r i t

  -- However requests tick the box, sign in again with a trusted browser or delete rows, each trusted
  -- row that is there dates from a time at which the box was ticked, and ends within the ceiling from
  -- that time: writing a row anew never prolongs the trust past it.
  pub Reach-AreBounded :
      (s w : World) → AreBounded ceiling s → Reach ceiling s w → AreBounded ceiling w
  Reach-AreBounded s w h here = h
  Reach-AreBounded s w h (next reach step) = step-AreBounded _ w step (Reach-AreBounded s _ h reach)
