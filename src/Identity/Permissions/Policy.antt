-- ===== src/Identity/Permissions/Policy.antt =====
-- What the policy table grants.
use finguard.Base.{◌≤◌, ◌≡◌, true, arith}
use finguard.Base.Table.{select}
use finguard.Identity.Permissions.{
  UserRole, Permission, has_permission, roles_with_permission, mem_role, mem_permission,
  role_permissions, rank,
}

-- A permission of a role is one of every role of the same or a higher rank.
has_permission-monotone :
    (low high : UserRole) (p : Permission)
    → rank low ≤ rank high
    → has_permission low p ≡ true
    → has_permission high p ≡ true
unfolding has_permission role_permissions mem_permission
has_permission-monotone low high p le h = ground arith

-- A role is among the roles of a permission exactly when it has the permission.
pub roles_with_permission-eq :
    (p : Permission) (role : UserRole)
    → mem_role role (roles_with_permission p) ≡ has_permission role p
unfolding roles_with_permission has_permission role_permissions mem_permission mem_role select
roles_with_permission-eq p role = ground arith
