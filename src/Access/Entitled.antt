-- ===== src/Access/Entitled.antt =====
-- Why a user may act in a project with a role, in terms of the rows and their columns.
use atlaspm.Base.{ℕ, ◌≤◌, ◌<◌, ◌≡◌, ◌≢◌, none, some, List, In}
use atlaspm.Access.{
  Directory, GuestGrant, ProjectMembership, ProjectRole, viewer, member, admin, project_scope,
  revoked, expired,
}

-- a grant that is neither revoked nor out of date
pub record IsLive (g : GuestGrant) (now : ℕ) : Type 0 where
  pub not_revoked : g.status ≢ revoked
  pub no_revocation : g.revoked_at ≡ none
  pub not_expired : g.status ≢ expired
  pub in_time : (t : ℕ) → g.expires_at ≡ some t → now < t

-- the second role allows what the first one allows
pub data AtLeast : ProjectRole → ProjectRole → Type 0 where
  over_viewer : {r : ProjectRole} → AtLeast viewer r
  member_member : AtLeast member member
  admin_member : AtLeast member admin
  admin_admin : AtLeast admin admin

-- a row that makes the user a member of the project
pub record IsMembership (d : Directory) (p u : ℕ) (m : ProjectMembership) : Type 0 where
  pub row : In m d.project_memberships
  pub project : m.project_id ≡ p
  pub user : m.user_id ≡ u

-- a grant that is for the project and the user
pub record IsGrant (p u : ℕ) (gs : List GuestGrant) (g : GuestGrant) : Type 0 where
  pub row : In g gs
  pub user : g.user_id ≡ u
  pub project : g.project_id ≡ some p
  pub scope : g.scope_type ≡ project_scope

-- such a grant, none of which was updated later
pub record IsNewest (p u : ℕ) (gs : List GuestGrant) (g : GuestGrant) : Type 0 where
  pub grant : IsGrant p u gs g
  pub newest : (h : GuestGrant) → IsGrant p u gs h → h.updated_at ≤ g.updated_at

-- why a user may act in a project with a role
pub data Entitled (d : Directory) (now p u : ℕ) (role : ProjectRole) : Type 0 where
  by_membership :
      (m : ProjectMembership) → IsMembership d p u m → m.role ≡ role → Entitled d now p u role
  by_grant :
      (g : GuestGrant)
      → ((m : ProjectMembership) → ¬ IsMembership d p u m)
      → IsNewest p u d.grants g
      → IsLive g now
      → g.project_role ≡ some role
      → Entitled d now p u role
