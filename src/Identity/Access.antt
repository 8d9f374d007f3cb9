-- ===== src/Identity/Access.antt =====
-- internal/modules/identity/domain/access.go: permissions as bits of a mask, and roles.
use send_flow_backend.Prelude.{
  ℕ, ◌^◌, String, Bool, true, false, ◌||◌, not, List, [], ◌∷◌, Option, none, some, map,
  if◌then◌else◌, find?, ◌==◌,
}
use send_flow_backend.Prelude.Text.{str_eq}
use send_flow_backend.Strings.{trim_space}
use send_flow_backend.Effect.{sentinel, Result, ok, err}
use Prim.Native.Nat.{bit_and, bit_or, Ordering}
use Prim.Native.String.{compare}

pub record Permission : Type 0 where
  pub bit : ℕ
  pub name : String

pub data RoleStatus : Type 0 where
  active archived : RoleStatus

pub data RoleType : Type 0 where
  owner member custom : RoleType

pub data MembershipRole : Type 0 where
  membership_owner membership_member : MembershipRole

pub record Role : Type 0 where
  pub id : String
  pub workspace_id : String
  pub name : String
  pub role_type : RoleType
  pub permissions_mask : ℕ
  pub builtin : Bool
  pub status : RoleStatus
  pub version : ℕ
  pub created_at : ℕ
  pub updated_at : ℕ

-- The names, in the order of their bits.
abbrev pub permission_names : List String
permission_names =
    "workspace.read" ∷ "workspace.manage_members" ∷ "workspace.manage_roles"
    ∷ "workspace.manage_settings" ∷ "sender.manage" ∷ "audience.read" ∷ "audience.write"
    ∷ "audience.import" ∷ "audience.export" ∷ "template.read" ∷ "template.write" ∷ "template.render"
    ∷ "suppression.read" ∷ "suppression.manage" ∷ "campaign.read" ∷ "campaign.write"
    ∷ "campaign.send" ∷ "api_key.manage" ∷ "analytics.read" ∷ "webhook.manage"
    ∷ "webhook.delivery.read" ∷ "webhook.delivery.retry" ∷ "operations.queue.read"
    ∷ "operations.dlq.read" ∷ "operations.replay.manage" ∷ "audit.read" ∷ "notification.read" ∷ []

abbrev numbered : ℕ → List String → List Permission
numbered n [] = []
numbered n (name ∷ rest) = record { bit = 2 ^ n; name = name } ∷ numbered (ℕ.suc n) rest

abbrev pub permission_registry : List Permission
permission_registry = numbered 0 permission_names

-- `mask&permission.Bit != 0`.
unfoldable pub has_bit : ℕ → Permission → Bool
has_bit mask permission = not (bit_and mask permission.bit == 0)

abbrev not_before : String → String → Bool
not_before s t = elim (compare s t) [ Ordering.lt ↦ false | _ ↦ true ]

abbrev pub insert_text : String → List String → List String
insert_text s [] = s ∷ []
insert_text s (t ∷ ts) = if not_before s t then t ∷ insert_text s ts else s ∷ t ∷ ts

-- `sort.Strings`.
abbrev pub sort_texts : List String → List String
sort_texts [] = []
sort_texts (s ∷ ss) = insert_text s (sort_texts ss)

abbrev pub names_of : ℕ → List Permission → List String
names_of mask [] = []
names_of mask (x ∷ xs) = if has_bit mask x then x.name ∷ names_of mask xs else names_of mask xs

unfoldable pub permission_names_from_mask : ℕ → List String
unfolding has_bit
permission_names_from_mask mask = sort_texts (names_of mask permission_registry)

abbrev pub union_of : ℕ → List Role → ℕ
union_of mask [] = mask
union_of mask (r ∷ rs) = union_of (bit_or mask r.permissions_mask) rs

unfoldable pub effective_permissions : List Role → List String
unfolding permission_names_from_mask
effective_permissions roles = permission_names_from_mask (union_of 0 roles)

unfoldable pub role_ids : List Role → List String
role_ids roles = map (λ (r : Role). r.id) roles

unfoldable pub role_names : List Role → List String
role_names roles = sort_texts (map (λ (r : Role). r.name) roles)

abbrev pub has_permission : List String → String → Bool
has_permission [] target = false
has_permission (name ∷ names) target = str_eq name target || has_permission names target

abbrev is_owner : RoleType → Bool
is_owner RoleType.owner = true
is_owner _ = false

unfoldable pub legacy_membership_role : List Role → MembershipRole
legacy_membership_role [] = membership_member
legacy_membership_role (r ∷ rs) =
    let rest = legacy_membership_role rs in if is_owner r.role_type then membership_owner else rest

-- The bit of the first permission of that name.
abbrev pub bit_named : String → Option Permission
bit_named name = find? (λ x. str_eq x.name name) permission_registry

module _ (to_lower : String → String) where
  unfoldable pub normal_name : String → String
  normal_name raw = trim_space (to_lower raw)

  abbrev pub add_found : ℕ → Option Permission → (ℕ → Result ℕ) → Result ℕ
  add_found mask none rest = err (sentinel "permission registry unknown")
  add_found mask (some x) rest = rest (bit_or mask x.bit)

  -- The loop of `PermissionsMaskFromNames`; `seen` are the names that it has met.
  unfoldable pub add_names : ℕ → List String → List String → Result ℕ
  unfolding normal_name
  add_names mask seen [] = ok mask
  add_names mask seen (raw ∷ rest) =
      let name = normal_name raw in
      let again = add_names mask seen rest in
      if str_eq name ""
      then again
      else if has_permission seen name
      then again
      else add_found mask (bit_named name) (λ m. add_names m (name ∷ seen) rest)

  unfoldable pub permissions_mask_from_names : List String → Result ℕ
  unfolding add_names
  permissions_mask_from_names names = add_names 0 [] names

  abbrev or_zero : Result ℕ → ℕ
  or_zero (ok m) = m
  or_zero (err e) = 0

  unfoldable pub permission_mask_or_zero : List String → ℕ
  unfolding permissions_mask_from_names
  permission_mask_or_zero names = or_zero (permissions_mask_from_names names)

abbrev pub union_of_bits : ℕ → List Permission → ℕ
union_of_bits mask [] = mask
union_of_bits mask (x ∷ xs) = union_of_bits (bit_or mask x.bit) xs

unfoldable pub all_permissions_mask : ℕ
all_permissions_mask = union_of_bits 0 permission_registry

unfoldable pub default_role_definitions : (String → String) → ℕ → List Role
unfolding all_permissions_mask permission_mask_or_zero
default_role_definitions to_lower now =
    record {
      id = "";
      workspace_id = "";
      name = "Owner";
      role_type = RoleType.owner;
      permissions_mask = all_permissions_mask;
      builtin = true;
      status = RoleStatus.active;
      version = 1;
      created_at = now;
      updated_at = now;
    }
    ∷ record {
      id = "";
      workspace_id = "";
      name = "Member";
      role_type = RoleType.member;
      permissions_mask = permission_mask_or_zero to_lower ("workspace.read" ∷ []);
      builtin = true;
      status = RoleStatus.active;
      version = 1;
      created_at = now;
      updated_at = now;
    }
    ∷ []
