-- ===== src/Access/Examples.antt =====
-- The theorems at a directory with one member and one guest.
use atlaspm.Base.{ℕ, sym, ap, ◌∙◌, inl, inr, In, ◌≡◌, refl, none, some, [], ◌∷◌, arith, ok}
use atlaspm.Access.{
  Directory, ProjectMembership, GuestGrant, project_scope, active, viewer, member,
  require_project_role, member_membership,
}
use atlaspm.Access.Entitled.{
  Entitled, by_membership, IsLive, IsGrant, IsMembership, AtLeast, over_viewer,
}
use atlaspm.Access.Roles.{require_project_role-Entitled, Entitled-require_project_role}

abbrev pub ann : ProjectMembership
ann = record { id = 50; project_id = 7; user_id = 1; role = member; created_at = 3 }

abbrev grant : ℕ → GuestGrant
grant expiry = record {
  id = 60;
  user_id = 2;
  project_id = some 7;
  scope_type = project_scope;
  project_role = some viewer;
  status = active;
  expires_at = some expiry;
  revoked_at = none;
  created_at = 4;
  updated_at = 5;
}

abbrev pub directory : Directory
directory = record {
  workspace_memberships = [];
  project_memberships = ann ∷ [];
  grants = record (grant 90) { updated_at = 2 } ∷ grant 100 ∷ [];
}

ann_passes : require_project_role directory 20 7 1 member ≡ ok ann
unfolding require_project_role member_membership
ann_passes = refl

require_project_role-Entitled_example : Entitled directory 20 7 1 member × AtLeast member member
require_project_role-Entitled_example =
    require_project_role-Entitled directory 20 7 1 member ann ann_passes

one_member :
    (a b : ProjectMembership) → IsMembership directory 7 1 a → IsMembership directory 7 1 b → a ≡ b
one_member a b h k = only a h.row ∙ sym (only b k.row)
  where
    only : (x : ProjectMembership) → In x (ann ∷ []) → x ≡ ann
    only x (inl e) = sym e
    only x (inr i) = absurd i

no_grants : (g : GuestGrant) → ¬ IsGrant 7 1 directory.grants g
no_grants g k = absurd (away k.row)
  where
    away : In g directory.grants → ⊥
    away (inl e) = omega (arith, ap (λ x. x.user_id) e, k.user)
    away (inr (inl e)) = omega (arith, ap (λ x. x.user_id) e, k.user)
    away (inr (inr i)) = i

Entitled-require_project_role_example :
    (m : ProjectMembership) × (require_project_role directory 20 7 1 viewer ≡ ok m)
    × (m.role ≡ member)
Entitled-require_project_role_example =
    Entitled-require_project_role directory 20 7 1 member viewer one_member
      (λ g h a b e. absurd (no_grants g a))
      (by_membership ann (record { row = inl refl; project = refl; user = refl }) refl) over_viewer

grant_is_over : ¬ IsLive (grant 100) 100
grant_is_over l = omega (arith, l.in_time 100 refl)
