-- ===== src/Clients/Reconcile/Client.antt =====
-- The links of one client, brought up to date: `syncResourceLinks` of
-- apps/web/src/server/oidc/reconcile.ts.
use semantius_idp.Prelude.{
  Bool, Bool-cases, In, In-append_iff, In-append_left, In-append_right, In-keep_iff, In-map,
  In-of_map, List, Text, [], ap, false_of_ne_true, has_text, inl, inr, is_empty, keep, map, not,
  refl, subst, sym, text_eq, text_eq-cases, text_eq_iff, true, ◌&&◌, ◌++◌, ◌↔◌, ◌∷◌, ◌≡◌, ◌≢◌, ◌⊎◌,
  arith,
}
use semantius_idp.Roles.Laws.{has_text_iff, has_text-false}
use semantius_idp.Clients.Reconcile.{linked_to, sync_resource_links}

linked_to_iff :
    (k r : Text) (links : List (Text × Text)) → In r (linked_to k links) ↔ In (k, r) links
linked_to_iff k r [] = (λ i. i, λ i. i)
linked_to_iff k r ((j, q) ∷ ls) =
    let (to, from) = linked_to_iff k r ls in
    elim (text_eq-cases j k) [
      | inl same ↦ rw ((text_eq_iff j k).1 same) (
        elim [ inl e ↦ inl (cc (same, e)) | inr i ↦ inr (to i) ],
        elim [ inl e ↦ inl (ap (λ x. x.1) e) | inr i ↦ inr (from i) ],
      )
      | inr other ↦ rw (other) (
        λ i. inr (to i),
        elim [
          | inl e ↦ absurd (cc (other, (text_eq_iff j k).1 (ap (λ x. x.0) e)))
          | inr i ↦ from i
        ],
      )
    ]

empty_lem : {A : Type 0} (xs : List A) → is_empty xs ≡ true → xs ≡ []
empty_lem [] h = refl
empty_lem (x ∷ xs) h = cc

-- The links after a client's links are brought up to date
abbrev pub SyncedTo :
    Text → List Text → List Text → List (Text × Text) → List (Text × Text) → Type 0
SyncedTo id wanted known links after =
    ((r : Text) → In (id, r) after ↔ (In r wanted × In r known))
    × ((k r : Text) → k ≢ id → In (k, r) after ↔ In (k, r) links)

module _ (id : Text) (wanted known : List Text) (links : List (Text × Text)) where
  abbrev writable : List Text
  writable = keep (has_text known) wanted

  abbrev to_add : List Text
  to_add = keep (λ r. not (has_text (linked_to id links) r)) writable

  abbrev to_remove : List Text
  to_remove = keep (λ r. not (has_text writable r)) (linked_to id links)

  writable_iff : (r : Text) → In r writable ↔ (In r wanted × In r known)
  writable_iff r =
      let (to, from) = In-keep_iff (has_text known) r wanted in
      (
        λ i. ((to i).0, (has_text_iff known r).0 (to i).1),
        λ (i, j). from (i, (has_text_iff known r).1 j),
      )

  kept_iff :
      (ts : List Text) (r : Text) (rs : List Text)
      → In r (keep (λ x. not (has_text ts x)) rs) ↔ (In r rs × ¬ In r ts)
  kept_iff ts r rs =
      let (to, from) = In-keep_iff (λ x. not (has_text ts x)) r rs in
      let out = has_text-false ts r in
      (
        λ i. ((to i).0, out.0 (ground (arith, (to i).1))),
        λ (i, n). from (i, ground (arith, out.1 n)),
      )

  add_iff : (r : Text) → In r to_add ↔ (In r writable × ¬ In (id, r) links)
  add_iff r =
      let (to, from) = kept_iff (linked_to id links) r writable in
      let (linked, link) = linked_to_iff id r links in
      (λ i. ((to i).0, λ j. (to i).1 (link j)), λ (i, n). from (i, λ j. n (linked j)))

  remove_iff : (r : Text) → In r to_remove ↔ (In (id, r) links × ¬ In r writable)
  remove_iff r =
      let (to, from) = kept_iff writable r (linked_to id links) in
      let (linked, link) = linked_to_iff id r links in
      (λ i. (linked (to i).0, (to i).1), λ (i, n). from (link i, n))

  abbrev is_removed : Text × Text → Bool
  is_removed l = text_eq l.0 id && has_text to_remove l.1

  abbrev rewritten : List (Text × Text)
  rewritten = keep (λ l. not (is_removed l)) links ++ map (λ r. (id, r)) to_add

  removed_iff : (k r : Text) → (is_removed (k, r) ≡ true) ↔ ((k ≡ id) × In r to_remove)
  removed_iff k r =
      let (to, from) = has_text_iff to_remove r in
      (
        λ h. ((text_eq_iff k id).0 (ground (arith, h)), to (ground (arith, h))),
        λ (e, i). ground (arith, (text_eq_iff k id).1 e, from i),
      )

  rewritten_iff :
      (k r : Text)
      → In (k, r) rewritten ↔ (
          (In {A = Text × Text} (k, r) links × ¬ ((k ≡ id) × In r to_remove))
          ⊎ ((k ≡ id) × In r to_add))
  rewritten_iff k r =
      let (to, from) = In-keep_iff (λ l. not (is_removed l)) (k, r) links in
      (
        λ i. elim ((In-append_iff (k, r) (keep (λ l. not (is_removed l)) links) _).0 i) [
          | inl j ↦ inl ((to j).0, λ x. absurd (ground (arith, (to j).1, (removed_iff k r).1 x)))
          | inr j ↦
              let (q, m, e) = In-of_map (λ x. (id, x)) (k, r) to_add j in
              inr (sym (ap (λ x. x.0) e), subst (λ x. In x to_add) (ap (λ x. x.1) e) m)
        ],
        elim [
          | inl (i, n) ↦
              In-append_left (k, r) (keep (λ l. not (is_removed l)) links) _
                (from (i, ground (arith, false_of_ne_true _ (λ h. n ((removed_iff k r).0 h)))))
          | inr (e, i) ↦
              In-append_right (k, r) (keep (λ l. not (is_removed l)) links) _
                (subst (λ x. In {A = Text × Text} (x, r) (map (λ y. (id, y)) to_add)) (sym e)
                  (In-map (λ y. (id, y)) r to_add i))
        ],
      )

  rewritten-SyncedTo : SyncedTo id wanted known links rewritten
  rewritten-SyncedTo = (
    λ r. (
      λ i. (writable_iff r).0 (elim ((rewritten_iff id r).0 i) [
        | inl (j, n) ↦ elim (Bool-cases (has_text writable r)) [
          | inl h ↦ (has_text_iff writable r).0 h
          | inr h ↦ absurd (n (refl, (remove_iff r).1 (j, (has_text-false writable r).0 h)))
        ]
        | inr (e, j) ↦ ((add_iff r).0 j).0
      ]),
      λ x. elim (Bool-cases (has_text (linked_to id links) r)) [
        | inl h ↦ (rewritten_iff id r).1 (
            inl (
              (linked_to_iff id r links).0 ((has_text_iff _ r).0 h),
              λ (e, j). ((remove_iff r).0 j).1 ((writable_iff r).1 x),
            ))
        | inr h ↦ (rewritten_iff id r).1 (
            inr (
              refl,
              (add_iff r).1 (
                (writable_iff r).1 x,
                λ j. (has_text-false _ r).0 h ((linked_to_iff id r links).1 j),
              ),
            ))
      ],
    ),
    λ k r n. (
      λ i. elim ((rewritten_iff k r).0 i) [ inl (j, m) ↦ j | inr (e, j) ↦ absurd (n e) ],
      λ i. (rewritten_iff k r).1 (inl (i, λ (e, j). n e)),
    ),
  )

  same-SyncedTo : to_add ≡ [] → to_remove ≡ [] → SyncedTo id wanted known links links
  same-SyncedTo a b = (
    λ r. (
      λ i. (writable_iff r).0 (elim (Bool-cases (has_text writable r)) [
        | inl h ↦ (has_text_iff writable r).0 h
        | inr h ↦ absurd (subst (In r) b ((remove_iff r).1 (i, (has_text-false writable r).0 h)))
      ]),
      λ x. elim (Bool-cases (has_text (linked_to id links) r)) [
        | inl h ↦ (linked_to_iff id r links).0 ((has_text_iff _ r).0 h)
        | inr h ↦ absurd (
            subst (In r) a (
              (add_iff r).1 (
                (writable_iff r).1 x,
                λ j. (has_text-false _ r).0 h ((linked_to_iff id r links).1 j),
              )))
      ],
    ),
    λ k r n. (λ i. i, λ i. i),
  )

  pub sync-SyncedTo :
      SyncedTo id wanted known links (sync_resource_links id wanted known links).links
  unfolding sync_resource_links
  sync-SyncedTo = elim (Bool-cases (is_empty to_add && is_empty to_remove)) [
    | inl h ↦ rw (h) (
        same-SyncedTo (empty_lem to_add (ground (arith, h)))
          (empty_lem to_remove (ground (arith, h))))
    | inr h ↦ rw (h) rewritten-SyncedTo
  ]
