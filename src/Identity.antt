-- ===== src/Identity.antt =====
-- The users and the roles: backend/src/domains/identity/models.py and repository.py.
pub mod Permissions
use finguard.Base.{ℕ, Bool, ◌&&◌, Option, String, List}
use finguard.Base.Table.{select}
use Permissions.{UserRole, mem_role}

-- The columns of `users` that the services read.
pub record User : Type 0 where
  pub id : ℕ
  pub email : String
  pub full_name : String
  pub role : UserRole
  pub is_active : Bool
  pub is_verified : Bool

-- `UserRepository.list_active_by_roles`
unfoldable pub list_active_by_roles : List UserRole → List User → List User
list_active_by_roles roles users =
    select (λ (u : User). mem_role u.role roles && u.is_active && u.is_verified) users
