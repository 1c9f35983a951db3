-- ===== src/Oauth/Grants/Sorted.antt =====
-- The sort of the list of grants: apps/web/src/server/oidc/grants.ts.
use semantius_idp.Prelude.{
  All, All-map, All-of_In, Bool-cases, In, In_of_All, List, [], inl, inr, leb, leb→le, subst, sym,
  ◌↔◌, ◌∷◌, ◌≡◌, ◌≢◌, ◌≤◌, ◌⊎◌, arith,
}
use semantius_idp.Oauth.Grants.{ActiveGrant, insert_grant, sort_grants}

-- The latest first
abbrev pub IsLatestFirst : List ActiveGrant → Type 0
IsLatestFirst [] = Unit
IsLatestFirst (g ∷ gs) = All (λ h. h.connected_at ≤ g.connected_at) gs × IsLatestFirst gs

-- No client twice
abbrev pub AreDistinct : List ActiveGrant → Type 0
AreDistinct [] = Unit
AreDistinct (g ∷ gs) = All (λ h. h.client_id ≢ g.client_id) gs × AreDistinct gs

In-insert :
    (g x : ActiveGrant) (gs : List ActiveGrant) → In x (insert_grant g gs) ↔ ((g ≡ x) ⊎ In x gs)
unfolding insert_grant
In-insert g x [] = (λ i. i, λ i. i)
In-insert g x (h ∷ hs) = elim (Bool-cases (leb h.connected_at g.connected_at)) [
  | inl e ↦ rw e (λ i. i, λ i. i)
  | inr e ↦
      let (to, from) = In-insert g x hs in
      rw e (
        elim [ inl q ↦ inr (inl q) | inr i ↦ elim (to i) [ inl q ↦ inl q | inr j ↦ inr (inr j) ] ],
        elim [
          | inl q ↦ inr (from (inl q))
          | inr (inl q) ↦ inl q
          | inr (inr j) ↦ inr (from (inr j))
        ],
      )
]

pub In-sort : (x : ActiveGrant) (gs : List ActiveGrant) → In x (sort_grants gs) ↔ In x gs
unfolding sort_grants
In-sort x [] = (λ i. i, λ i. i)
In-sort x (g ∷ gs) =
    let (to, from) = In-insert g x (sort_grants gs) in
    let (rest, back) = In-sort x gs in
    (
      λ i. elim (to i) [ inl e ↦ inl e | inr j ↦ inr (rest j) ],
      elim [ inl e ↦ from (inl e) | inr j ↦ from (inr (back j)) ],
    )

All-insert :
    (P : ActiveGrant → Type 0) (g : ActiveGrant) (gs : List ActiveGrant)
    → P g
    → All P gs
    → All P (insert_grant g gs)
All-insert P g gs p ps =
    All-of_In P (insert_grant g gs)
      (λ x i. elim ((In-insert g x gs).0 i) [ inl e ↦ subst P e p | inr j ↦ In_of_All P x gs ps j ])

insert-IsLatestFirst :
    (g : ActiveGrant) (gs : List ActiveGrant) → IsLatestFirst gs → IsLatestFirst (insert_grant g gs)
unfolding insert_grant
insert-IsLatestFirst g [] s = (tt, tt)
insert-IsLatestFirst g (h ∷ hs) (a, s) = elim (Bool-cases (leb h.connected_at g.connected_at)) [
  | inl e ↦
      let below : h.connected_at ≤ g.connected_at = leb→le _ _ e in
      rw e ((below, All-map (λ x l. omega (arith, l, below)) hs a), (a, s))
  | inr e ↦ rw e (
    All-insert (λ x. x.connected_at ≤ h.connected_at) g hs (ground (arith, e)) a,
    insert-IsLatestFirst g hs s,
  )
]

pub sort-IsLatestFirst : (gs : List ActiveGrant) → IsLatestFirst (sort_grants gs)
unfolding sort_grants
sort-IsLatestFirst [] = tt
sort-IsLatestFirst (g ∷ gs) = insert-IsLatestFirst g (sort_grants gs) (sort-IsLatestFirst gs)

insert-AreDistinct :
    (g : ActiveGrant) (gs : List ActiveGrant)
    → All (λ h. h.client_id ≢ g.client_id) gs
    → AreDistinct gs
    → AreDistinct (insert_grant g gs)
unfolding insert_grant
insert-AreDistinct g [] n d = (tt, tt)
insert-AreDistinct g (h ∷ hs) (n, ns) (a, d) =
    elim (Bool-cases (leb h.connected_at g.connected_at)) [
      | inl e ↦ rw e ((n, ns), (a, d))
      | inr e ↦ rw e (
        All-insert (λ x. x.client_id ≢ h.client_id) g hs (λ q. n (sym q)) a,
        insert-AreDistinct g hs ns d,
      )
    ]

pub sort-AreDistinct : (gs : List ActiveGrant) → AreDistinct gs → AreDistinct (sort_grants gs)
unfolding sort_grants
sort-AreDistinct [] d = tt
sort-AreDistinct (g ∷ gs) (n, d) =
    insert-AreDistinct g (sort_grants gs)
      (All-of_In (λ h. h.client_id ≢ g.client_id) (sort_grants gs)
        (λ x i. In_of_All (λ h. h.client_id ≢ g.client_id) x gs n ((In-sort x gs).0 i)))
      (sort-AreDistinct gs d)
