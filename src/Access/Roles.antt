-- ===== src/Access/Roles.antt =====
-- What a granted role means, when it is refused, and how it depends on the least role asked for.
use atlaspm.Base.{
  ℕ, ◌≤◌, ◌≡◌, ◌∙◌, ◌⊎◌, inl, inr, refl, ap, subst, none, some, arith, find, ok, err, Option-cases,
  Bool-cases, ◌||◌, sym,
}
use atlaspm.Store.{is_some}
use atlaspm.Access.{
  Directory, GuestGrant, ProjectMembership, ProjectRole, project_role_rank, of_project_user,
  latest_grant, guest_membership, member_membership, require_project_role, guest_revoked,
  guest_expired, is_revoked, is_expired, has_lapsed,
}
use atlaspm.Access.Entitled.{
  IsLive, AtLeast, IsMembership, IsGrant, Entitled, by_membership, by_grant,
}
use atlaspm.Access.Rows.{
  project_role_rank-AtLeast, AtLeast-project_role_rank, find-member, member-find, no_grant,
  latest_grant-IsNewest,
}

guest_membership-IsLive :
    (g : GuestGrant) (now p u : ℕ) (least : ProjectRole) (m : ProjectMembership)
    → guest_membership g now p u least ≡ ok m
    → IsLive g now
      × (g.project_role ≡ some m.role)
      × (project_role_rank least ≤ project_role_rank m.role)
unfolding guest_membership
guest_membership-IsLive g now p u least m e = (
  record {
    not_revoked = ground arith;
    no_revocation = ground arith;
    not_expired = ground arith;
    in_time = λ t k. ground (arith, k);
  },
  ground arith,
  ground arith,
)

guest_membership-grants :
    (g : GuestGrant) (now p u : ℕ) (role least : ProjectRole)
    → IsLive g now
    → g.project_role ≡ some role
    → project_role_rank least ≤ project_role_rank role
    → guest_membership g now p u least
      ≡ ok (record {
        id = g.id;
        project_id = p;
        user_id = u;
        role = role;
        created_at = g.created_at;
      })
unfolding guest_membership
guest_membership-grants g now p u role least live r h = elim (Option-cases g.expires_at) [
  | inl e ↦ ground (arith, live.not_revoked, live.no_revocation, live.not_expired, e)
  | inr (t, e) ↦
      ground (arith, live.not_revoked, live.no_revocation, live.not_expired, live.in_time t e, e)
]

-- When `requireProjectRole` lets a user pass, the role it returns is at least the one asked for, and
-- the user has it by a membership row or, without any, by a guest grant for the project that is
-- live and none of whose like was updated later.
pub require_project_role-Entitled :
    (d : Directory) (now p u : ℕ) (least : ProjectRole) (m : ProjectMembership)
    → require_project_role d now p u least ≡ ok m
    → Entitled d now p u m.role × AtLeast least m.role
unfolding require_project_role member_membership
require_project_role-Entitled d now p u least m e =
    elim (Option-cases (find (of_project_user p u) d.project_memberships)) [
      | inr (a, f) ↦
          let k : a ≡ m = ground arith in
          let (i, b, c) = find-member p u d.project_memberships a f in
          (
            by_membership a (record { row = i; project = b; user = c }) (ap (λ x. x.role) k),
            project_role_rank-AtLeast least m.role (ground arith),
          )
      | inl f ↦ elim (Option-cases (latest_grant p u d.grants)) [
        | inl l ↦ absurd (ground arith)
        | inr (g, l) ↦
            let (live, r, h) = guest_membership-IsLive g now p u least m (ground arith) in
            (
              by_grant g (λ x k. member-find p u d.project_memberships x k.row k.project k.user f)
                  (latest_grant-IsNewest p u d.grants g l) live r,
              project_role_rank-AtLeast least m.role h,
            )
      ]
    ]

-- Where a user has at most one membership of the project and no two of the user's grants for it
-- were updated at one time, a user that has a role, by membership or by a live newest grant without
-- one, passes for every role up to the one held, and gets it.
pub Entitled-require_project_role :
    (d : Directory) (now p u : ℕ) (role least : ProjectRole)
    → ((a b : ProjectMembership) → IsMembership d p u a → IsMembership d p u b → a ≡ b)
    → ((g h : GuestGrant)
        → IsGrant p u d.grants g
        → IsGrant p u d.grants h
        → g.updated_at ≡ h.updated_at
        → g ≡ h)
    → Entitled d now p u role
    → AtLeast least role
    → (m : ProjectMembership) × (require_project_role d now p u least ≡ ok m) × (m.role ≡ role)
unfolding require_project_role member_membership
Entitled-require_project_role d now p u role least one alone (by_membership m k r) h =
    elim (Option-cases (find (of_project_user p u) d.project_memberships)) [
      | inl f ↦ absurd (member-find p u d.project_memberships m k.row k.project k.user f)
      | inr (a, f) ↦
          let (i, b, c) = find-member p u d.project_memberships a f in
          let same = one a m (record { row = i; project = b; user = c }) k in
          let held : a.role ≡ role = ap (λ x. x.role) same ∙ r in
          let rank = AtLeast-project_role_rank least role h in
          (
            a,
            ground
                (arith, subst (λ y. project_role_rank least ≤ project_role_rank y) (sym held) rank),
            held,
          )
    ]
Entitled-require_project_role d now p u role least one alone (by_grant g no_row n live r) h =
    let rank = AtLeast-project_role_rank least role h in
    elim (Option-cases (find (of_project_user p u) d.project_memberships)) [
      | inr (a, f) ↦
          let (i, b, c) = find-member p u d.project_memberships a f in
          absurd (no_row a (record { row = i; project = b; user = c }))
      | inl f ↦ elim (Option-cases (latest_grant p u d.grants)) [
        | inl l ↦ absurd (no_grant p u d.grants g l n.grant)
        | inr (q, l) ↦
            let newest = latest_grant-IsNewest p u d.grants q l in
            let at : q.updated_at ≡ g.updated_at =
              omega (arith, newest.newest g n.grant, n.newest q newest.grant) in
            let same = alone q g newest.grant n.grant at in
            let l' : latest_grant p u d.grants ≡ some g = l ∙ ap some same in
            (
              record {
                id = g.id;
                project_id = p;
                user_id = u;
                role = role;
                created_at = g.created_at;
              },
              rw (f, require_project_role, l')
                  (guest_membership-grants g now p u role least live r rank),
              refl,
            )
      ]
    ]

-- Once the latest grant of a user without membership is revoked, or its time is up, every role is
-- refused.
require_project_role-lapsed :
    (d : Directory) (now p u : ℕ) (least : ProjectRole) (g : GuestGrant)
    → find (of_project_user p u) d.project_memberships ≡ none
    → latest_grant p u d.grants ≡ some g
    → (¬ IsLive g now)
    → (require_project_role d now p u least ≡ err guest_revoked)
      ⊎ (require_project_role d now p u least ≡ err guest_expired)
unfolding require_project_role guest_membership
require_project_role-lapsed d now p u least g f l dead =
    elim (Bool-cases (is_revoked g.status || is_some g.revoked_at)) [
      | inl a ↦ inl (ground arith)
      | inr a ↦ elim (Bool-cases (is_expired g.status || has_lapsed now g.expires_at)) [
        | inl b ↦ inr (ground arith)
        | inr b ↦ absurd (
            dead (record {
              not_revoked = ground arith;
              no_revocation = ground arith;
              not_expired = ground arith;
              in_time = λ t k. ground (arith, k);
            }))
      ]
    ]
