-- ===== src/Identity/Permissions.antt =====
-- The role-based access policy: backend/src/domains/identity/permissions.py.
pub mod Policy
use finguard.Base.{
  ℕ, ◌==◌, ◌≡◌, ◌↔◌, Bool, true, false, ◌||◌, List, [], ◌∷◌, ◌++◌, arith, if◌then◌else◌,
}
use finguard.Base.Table.{select}

pub data UserRole : Type 0 where
  owner admin manager accountant viewer : UserRole

pub data Permission : Type 0 where
  finance_read finance_write finance_reconcile finance_approve : Permission
  crm_read crm_write inventory_read inventory_write inventory_adjust : Permission
  intelligence_read intelligence_act user_manage audit_read : Permission

abbrev role_index : UserRole → ℕ
role_index owner = 0
role_index admin = 1
role_index manager = 2
role_index accountant = 3
role_index viewer = 4

abbrev permission_index : Permission → ℕ
permission_index finance_read = 0
permission_index finance_write = 1
permission_index finance_reconcile = 2
permission_index finance_approve = 3
permission_index crm_read = 4
permission_index crm_write = 5
permission_index inventory_read = 6
permission_index inventory_write = 7
permission_index inventory_adjust = 8
permission_index intelligence_read = 9
permission_index intelligence_act = 10
permission_index user_manage = 11
permission_index audit_read = 12

-- `role in roles`, `permission in perms`
unfoldable pub mem_role : UserRole → List UserRole → Bool
mem_role r [] = false
mem_role r (s ∷ ss) = role_index s == role_index r || mem_role r ss

unfoldable pub mem_permission : Permission → List Permission → Bool
mem_permission p [] = false
mem_permission p (q ∷ qs) = permission_index q == permission_index p || mem_permission p qs

-- `_READ_ONLY`
abbrev pub read_only : List Permission
read_only = finance_read ∷ crm_read ∷ inventory_read ∷ intelligence_read ∷ []

-- `_OPERATOR`
abbrev pub operator : List Permission
operator = read_only ++ finance_write ∷ crm_write ∷ inventory_write ∷ intelligence_act ∷ []

-- `_MANAGER`
abbrev pub manager_tier : List Permission
manager_tier = operator ++ finance_reconcile ∷ finance_approve ∷ audit_read ∷ inventory_adjust ∷ []

-- `_ADMIN`
abbrev pub admin_tier : List Permission
admin_tier = manager_tier ++ user_manage ∷ []

-- `role_permissions`
unfoldable pub role_permissions : UserRole → List Permission
role_permissions viewer = read_only
role_permissions accountant = operator
role_permissions manager = manager_tier
role_permissions admin = admin_tier
role_permissions owner = admin_tier

unfoldable pub has_permission : UserRole → Permission → Bool
unfolding role_permissions mem_permission
has_permission role permission = mem_permission permission (role_permissions role)

-- The keys of `_ROLE_PERMISSIONS`.
abbrev pub all_roles : List UserRole
all_roles = viewer ∷ accountant ∷ manager ∷ admin ∷ owner ∷ []

unfoldable pub roles_with_permission : Permission → List UserRole
unfolding has_permission
roles_with_permission permission = select (λ role. has_permission role permission) all_roles

-- The seniority of a role.
abbrev pub rank : UserRole → ℕ
rank viewer = 0
rank accountant = 1
rank manager = 2
rank admin = 3
rank owner = 3
