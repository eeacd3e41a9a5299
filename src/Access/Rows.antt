-- ===== src/Access/Rows.antt =====
-- The role order, and the rows that requireProjectRole looks up.
use atlaspm.Base.{
  ℕ, ◌≤◌, ◌≡◌, ◌⊎◌, inl, inr, refl, ap, subst, true, none, some, List, [], ◌∷◌, arith, find,
  Option-cases, ltb, Bool-cases, In, ==→eq, ==_self, sym,
}
use atlaspm.Store.{has_id_lem}
use atlaspm.Access.{
  GuestGrant, ProjectMembership, ProjectRole, viewer, member, admin, ScopeType, project_scope,
  workspace_scope, is_project_scope, project_role_rank, of_project_user, latest_grant, grant_for,
}
use atlaspm.Access.Entitled.{
  AtLeast, over_viewer, member_member, admin_member, admin_admin, IsGrant, IsNewest,
}

pub project_role_rank-AtLeast :
    (least role : ProjectRole)
    → project_role_rank least ≤ project_role_rank role
    → AtLeast least role
project_role_rank-AtLeast viewer role h = over_viewer
project_role_rank-AtLeast member viewer h = absurd (omega (arith, h))
project_role_rank-AtLeast member member h = member_member
project_role_rank-AtLeast member admin h = admin_member
project_role_rank-AtLeast admin viewer h = absurd (omega (arith, h))
project_role_rank-AtLeast admin member h = absurd (omega (arith, h))
project_role_rank-AtLeast admin admin h = admin_admin

pub AtLeast-project_role_rank :
    (least role : ProjectRole)
    → AtLeast least role
    → project_role_rank least ≤ project_role_rank role
AtLeast-project_role_rank viewer viewer h = omega arith
AtLeast-project_role_rank viewer member h = omega arith
AtLeast-project_role_rank viewer admin h = omega arith
AtLeast-project_role_rank member viewer h = elim h [ ]
AtLeast-project_role_rank admin viewer h = elim h [ ]
AtLeast-project_role_rank admin member h = elim h [ ]
AtLeast-project_role_rank member member member_member = omega arith
AtLeast-project_role_rank member admin admin_member = omega arith
AtLeast-project_role_rank admin admin admin_admin = omega arith

pub find-member :
    (p u : ℕ) (ms : List ProjectMembership) (m : ProjectMembership)
    → find (of_project_user p u) ms ≡ some m
    → In m ms × (m.project_id ≡ p) × (m.user_id ≡ u)
find-member p u [] m f = absurd (cc f)
find-member p u (x ∷ ms) m f = elim (Bool-cases (of_project_user p u x)) [
  | inl e ↦
      let k : x ≡ m = ground arith in
      (
        inl k,
        subst (λ y. y.project_id ≡ p) k (==→eq x.project_id p (ground arith)),
        subst (λ y. y.user_id ≡ u) k (==→eq x.user_id u (ground arith)),
      )
  | inr e ↦ let (i, a, b) = find-member p u ms m (ground arith) in (inr i, a, b)
]

pub member-find :
    (p u : ℕ) (ms : List ProjectMembership) (m : ProjectMembership)
    → In m ms
    → m.project_id ≡ p
    → m.user_id ≡ u
    → find (of_project_user p u) ms ≡ none
    → ⊥
member-find p u [] m i a b f = i
member-find p u (x ∷ ms) m (inl k) a b f =
    let hit : of_project_user p u x ≡ true =
      subst (λ y. of_project_user p u y ≡ true) (sym k)
        (rw (a, b) (ground (arith, ==_self p, ==_self u))) in
    absurd (ground (arith, hit))
member-find p u (x ∷ ms) m (inr i) a b f = member-find p u ms m i a b (ground arith)

scope_lem : (s : ScopeType) → is_project_scope s ≡ true → s ≡ project_scope
scope_lem project_scope h = refl
scope_lem workspace_scope h = absurd (cc h)

grant_for-fields :
    (p u : ℕ) (g : GuestGrant)
    → grant_for p u g ≡ true
    → (g.user_id ≡ u) × (g.project_id ≡ some p) × (g.scope_type ≡ project_scope)
grant_for-fields p u g h = (
  ==→eq g.user_id u (ground arith),
  has_id_lem p g.project_id (ground arith),
  scope_lem g.scope_type (ground arith),
)

fields-grant_for :
    (p u : ℕ) (g : GuestGrant)
    → g.user_id ≡ u
    → g.project_id ≡ some p
    → g.scope_type ≡ project_scope
    → grant_for p u g ≡ true
fields-grant_for p u g a b c = rw (a, b, c, ==_self u, ==_self p) refl

IsGrant-later :
    (p u : ℕ) (x g : GuestGrant) (gs : List GuestGrant) → IsGrant p u gs g → IsGrant p u (x ∷ gs) g
IsGrant-later p u x g gs h = record {
  row = inr h.row;
  user = h.user;
  project = h.project;
  scope = h.scope;
}

IsGrant-own :
    (p u : ℕ) (x : GuestGrant) (gs : List GuestGrant)
    → grant_for p u x ≡ true
    → IsGrant p u (x ∷ gs) x
IsGrant-own p u x gs e =
    let (a, b, c) = grant_for-fields p u x e in
    record { row = inl refl; user = a; project = b; scope = c }

-- A grant for the user is the first row, or one of the others.
IsGrant-cases :
    (p u : ℕ) (x h : GuestGrant) (gs : List GuestGrant)
    → IsGrant p u (x ∷ gs) h
    → ((x ≡ h) × (grant_for p u x ≡ true)) ⊎ IsGrant p u gs h
IsGrant-cases p u x h gs k = go k.row
  where
    go : (x ≡ h) ⊎ In h gs → ((x ≡ h) × (grant_for p u x ≡ true)) ⊎ IsGrant p u gs h
    go (inl e) = inl (
      e,
      subst (λ y. grant_for p u y ≡ true) (sym e) (fields-grant_for p u h k.user k.project k.scope),
    )
    go (inr i) = inr (record { row = i; user = k.user; project = k.project; scope = k.scope })

pub no_grant :
    (p u : ℕ) (gs : List GuestGrant) (h : GuestGrant)
    → latest_grant p u gs ≡ none
    → ¬ IsGrant p u gs h
no_grant p u [] h e k = k.row
no_grant p u (x ∷ gs) h e k = elim (IsGrant-cases p u x h gs k) [
  | inl (same, own) ↦ absurd (ground arith)
  | inr later ↦ no_grant p u gs h (ground arith) later
]

IsNewest-first :
    (p u : ℕ) (x : GuestGrant) (gs : List GuestGrant)
    → grant_for p u x ≡ true
    → ((h : GuestGrant) → IsGrant p u gs h → h.updated_at ≤ x.updated_at)
    → IsNewest p u (x ∷ gs) x
IsNewest-first p u x gs own n = record {
  grant = IsGrant-own p u x gs own;
  newest = λ h k. elim (IsGrant-cases p u x h gs k) [
    | inl (same, e) ↦ let t = ap (λ y. y.updated_at) same in omega (arith, t)
    | inr later ↦ n h later
  ];
}

IsNewest-later :
    (p u : ℕ) (x g : GuestGrant) (gs : List GuestGrant)
    → (grant_for p u x ≡ true → x.updated_at ≤ g.updated_at)
    → IsNewest p u gs g
    → IsNewest p u (x ∷ gs) g
IsNewest-later p u x g gs older n = record {
  grant = IsGrant-later p u x g gs n.grant;
  newest = λ h k. elim (IsGrant-cases p u x h gs k) [
    | inl (same, e) ↦ let t = ap (λ y. y.updated_at) same in omega (arith, t, older e)
    | inr later ↦ n.newest h later
  ];
}

-- The grant that the check reads is one of the user's for the project, and none is newer.
pub latest_grant-IsNewest :
    (p u : ℕ) (gs : List GuestGrant) (g : GuestGrant)
    → latest_grant p u gs ≡ some g
    → IsNewest p u gs g
latest_grant-IsNewest p u [] g e = absurd (cc e)
latest_grant-IsNewest p u (x ∷ xs) g e = elim (Bool-cases (grant_for p u x)) [
  | inr bad ↦
      IsNewest-later p u x g xs (λ m. absurd (cc (m, bad)))
        (latest_grant-IsNewest p u xs g (ground arith))
  | inl own ↦ elim (Option-cases (latest_grant p u xs)) [
    | inl l ↦
        let k : x ≡ g = ground arith in
        subst (IsNewest p u (x ∷ xs)) k
          (IsNewest-first p u x xs own (λ h i. absurd (no_grant p u xs h l i)))
    | inr (h, l) ↦
        let n = latest_grant-IsNewest p u xs h l in
        elim (Bool-cases (ltb x.updated_at h.updated_at)) [
          | inl lt ↦
              let k : h ≡ g = ground arith in
              subst (IsNewest p u (x ∷ xs)) k (IsNewest-later p u x h xs (λ m. ground arith) n)
          | inr ge ↦
              let k : x ≡ g = ground arith in
              let le : h.updated_at ≤ x.updated_at = ground arith in
              subst (IsNewest p u (x ∷ xs)) k
                (IsNewest-first p u x xs own (λ q i. omega (arith, le, n.newest q i)))
        ]
  ]
]
