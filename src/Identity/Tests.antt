-- ===== src/Identity/Tests.antt =====
-- Concrete masks and roles.
use send_flow_backend.Prelude.{
  ℕ, String, ◌≡◌, ◌≢◌, refl, true, false, List, [], ◌∷◌, any, map, ◌^◌, ◌-◌,
}
use send_flow_backend.Prelude.Text.{eq_iff}
use send_flow_backend.Effect.{ok, err, sentinel}
use send_flow_backend.Strings.{trim_space}
use send_flow_backend.Identity.Access.{
  Role, RoleType, RoleStatus, has_permission, effective_permissions, permission_names_from_mask,
  permissions_mask_from_names, normal_name, all_permissions_mask, default_role_definitions,
  legacy_membership_role, membership_owner, role_ids, role_names,
}
use send_flow_backend.Identity.Masks.{effective_permissions-union}
use send_flow_backend.Identity.RoundTrip.{permissions_mask_from_names-names}

abbrev role_with : RoleType → ℕ → Role
role_with kind mask = record {
  id = "r";
  workspace_id = "w";
  name = "n";
  role_type = kind;
  permissions_mask = mask;
  builtin = false;
  status = RoleStatus.active;
  version = 1;
  created_at = 0;
  updated_at = 0;
}

abbrev two_roles : List Role
two_roles = role_with RoleType.custom 5 ∷ role_with RoleType.owner 18 ∷ []

sorted_names :
    effective_permissions two_roles
    ≡ "sender.manage" ∷ "workspace.manage_members" ∷ "workspace.manage_roles" ∷ "workspace.read"
      ∷ []
unfolding effective_permissions
sorted_names = refl

every_bit : all_permissions_mask ≡ 2 ^ 27 - 1
unfolding all_permissions_mask
every_bit = refl

first_owner : legacy_membership_role two_roles ≡ membership_owner
unfolding legacy_membership_role
first_owner = refl

listed : role_ids two_roles ≡ "r" ∷ "r" ∷ []
unfolding role_ids
listed = refl

named : role_names two_roles ≡ "n" ∷ "n" ∷ []
unfolding role_names
named = refl

member_reads :
    map (λ (r : Role). r.permissions_mask) (default_role_definitions (λ s. s) 3)
    ≡ (2 ^ 27 - 1) ∷ 1 ∷ []
unfolding default_role_definitions normal_name trim_space
member_reads = refl

unknown_name :
    permissions_mask_from_names (λ s. s) ("audit.read" ∷ "audit.write" ∷ [])
    ≡ err (sentinel "permission registry unknown")
unfolding permissions_mask_from_names normal_name trim_space
unknown_name = refl

effective_permissions-union_example :
    has_permission (effective_permissions two_roles) "sender.manage"
    ≡ any
        (λ (r : Role).
          has_permission (permission_names_from_mask r.permissions_mask) "sender.manage")
        two_roles
effective_permissions-union_example = effective_permissions-union two_roles "sender.manage"

one_name : permissions_mask_from_names (λ s. s) (" audit.read " ∷ []) ≡ ok (2 ^ 25)
unfolding permissions_mask_from_names normal_name trim_space
one_name = refl

not_blank : ◌≢◌ {A = String} "audit.read" ""
not_blank e = apart ((eq_iff "audit.read" "").1 e)
  where
    apart : false ≡ true → ⊥
    apart h = cc

permissions_mask_from_names-names_example :
    has_permission (permission_names_from_mask (2 ^ 25)) "audit.read"
    ≡ has_permission (map (normal_name (λ s. s)) (" audit.read " ∷ [])) "audit.read"
permissions_mask_from_names-names_example =
    permissions_mask_from_names-names (λ s. s) (" audit.read " ∷ []) (2 ^ 25) one_name "audit.read"
      not_blank
