-- ===== src/Access.antt =====
-- AuthorizationService (apps/core-api/src/common/authorization.service.ts): the role that a user
-- has in a workspace or a project, by membership or by a guest grant.
pub mod Entitled
pub mod Rows
pub mod Roles
pub mod Examples
use atlaspm.Base.{
  ℕ, ltb, leb, ◌==◌, Bool, true, false, ◌&&◌, ◌||◌, Option, none, some, List, [], ◌∷◌,
  if◌then◌else◌, find, Result, ok, err, ◌>>=◌, ◌>>◌, refuse, or_fail,
}
use atlaspm.Store.{has_id, is_some}

pub data WorkspaceRole : Type 0 where
  ws_member ws_admin : WorkspaceRole

pub data ProjectRole : Type 0 where
  viewer member admin : ProjectRole

-- workspaceRoleRank
abbrev pub workspace_role_rank : WorkspaceRole → ℕ
workspace_role_rank ws_member = 1
workspace_role_rank ws_admin = 2

-- projectRoleRank
abbrev pub project_role_rank : ProjectRole → ℕ
project_role_rank viewer = 1
project_role_rank member = 2
project_role_rank admin = 3

pub record WorkspaceMembership : Type 0 where
  pub workspace_id : ℕ
  pub user_id : ℕ
  pub role : WorkspaceRole

pub record ProjectMembership : Type 0 where
  pub id : ℕ
  pub project_id : ℕ
  pub user_id : ℕ
  pub role : ProjectRole
  pub created_at : ℕ

pub data ScopeType : Type 0 where
  workspace_scope project_scope : ScopeType

pub data GuestStatus : Type 0 where
  active revoked expired : GuestStatus

-- model GuestAccessGrant, the columns that the check reads
pub record GuestGrant : Type 0 where
  pub id : ℕ
  pub user_id : ℕ
  pub project_id : Option ℕ
  pub scope_type : ScopeType
  pub project_role : Option ProjectRole
  pub status : GuestStatus
  pub expires_at : Option ℕ
  pub revoked_at : Option ℕ
  pub created_at : ℕ
  pub updated_at : ℕ

pub record Directory : Type 0 where
  pub workspace_memberships : List WorkspaceMembership
  pub project_memberships : List ProjectMembership
  pub grants : List GuestGrant

-- NotFoundException and ForbiddenException, by their messages
pub data AccessError : Type 0 where
  workspace_membership_not_found insufficient_workspace_role : AccessError
  project_membership_not_found insufficient_role : AccessError
  guest_revoked guest_expired guest_not_configured : AccessError

abbrev pub is_project_scope : ScopeType → Bool
is_project_scope project_scope = true
is_project_scope workspace_scope = false

abbrev pub is_revoked : GuestStatus → Bool
is_revoked revoked = true
is_revoked _ = false

abbrev pub is_expired : GuestStatus → Bool
is_expired expired = true
is_expired _ = false

abbrev pub of_workspace_user : ℕ → ℕ → WorkspaceMembership → Bool
of_workspace_user w u m = (m.workspace_id == w) && (m.user_id == u)

abbrev pub of_project_user : ℕ → ℕ → ProjectMembership → Bool
of_project_user p u m = (m.project_id == p) && (m.user_id == u)

abbrev pub grant_for : ℕ → ℕ → GuestGrant → Bool
grant_for p u g = (g.user_id == u) && (has_id p g.project_id && is_project_scope g.scope_type)

-- requireWorkspaceMembership
pub require_workspace_membership :
    Directory → (workspace_id user_id : ℕ) → Result AccessError WorkspaceMembership
require_workspace_membership d w u =
    or_fail (find (of_workspace_user w u) d.workspace_memberships) workspace_membership_not_found

-- requireWorkspaceRole
pub require_workspace_role :
    Directory → (workspace_id user_id : ℕ) → WorkspaceRole → Result AccessError WorkspaceMembership
require_workspace_role d w u least = do
  m ← or_fail (find (of_workspace_user w u) d.workspace_memberships) workspace_membership_not_found
  refuse (ltb (workspace_role_rank m.role) (workspace_role_rank least)) insufficient_workspace_role
  ok m

abbrev pub newer : GuestGrant → Option GuestGrant → GuestGrant
newer g none = g
newer g (some h) = if ltb g.updated_at h.updated_at then h else g

-- `guestAccessGrant.findFirst({ …, orderBy: { updatedAt: 'desc' } })`: the first of the rows that
-- were updated last
abbrev pub latest_grant : (p u : ℕ) → List GuestGrant → Option GuestGrant
latest_grant p u [] = none
latest_grant p u (g ∷ gs) =
    if grant_for p u g then some (newer g (latest_grant p u gs)) else latest_grant p u gs

-- `expiresAt && expiresAt.getTime() <= Date.now()`
abbrev pub has_lapsed : ℕ → Option ℕ → Bool
has_lapsed now none = false
has_lapsed now (some t) = leb t now

-- the part of requireProjectRole that looks at a guest grant
pub guest_membership :
    GuestGrant → (now project_id user_id : ℕ) → ProjectRole → Result AccessError ProjectMembership
guest_membership g now p u least = do
  refuse (is_revoked g.status || is_some g.revoked_at) guest_revoked
  refuse (is_expired g.status || has_lapsed now g.expires_at) guest_expired
  role ← or_fail g.project_role guest_not_configured
  refuse (ltb (project_role_rank role) (project_role_rank least)) insufficient_role
  ok (record { id = g.id; project_id = p; user_id = u; role = role; created_at = g.created_at })

-- the part of requireProjectRole that looks at a membership
pub member_membership : ProjectMembership → ProjectRole → Result AccessError ProjectMembership
member_membership m least = do
  refuse (ltb (project_role_rank m.role) (project_role_rank least)) insufficient_role
  ok m

-- requireProjectRole at the time `now`
unfoldable pub require_project_role :
    Directory → (now project_id user_id : ℕ) → ProjectRole → Result AccessError ProjectMembership
unfolding member_membership guest_membership
require_project_role d now p u least = elim (find (of_project_user p u) d.project_memberships) [
  | some m ↦ member_membership m least
  | none ↦ elim (latest_grant p u d.grants) [
    | none ↦ err project_membership_not_found
    | some g ↦ guest_membership g now p u least
  ]
]
