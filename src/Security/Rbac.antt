-- ===== src/Security/Rbac.antt =====
-- common/security/rbac.py and the request permission of common/security/permission.py. The casbin
-- plugin is not in the repository: it is an argument, or missing.
pub mod Granted
use git_hub_repository_resea.Base.{
  ℕ, String, Bool, true, false, not, ◌&&◌, ◌||◌, Option, none, some, List, [], ◌∷◌, ◌++◌, ◌==◌,
  one_of, truthy, nat_eq, if◌then◌else◌,
}
use git_hub_repository_resea.Errors.{Error, token_error, authorization_error, server_error}
use git_hub_repository_resea.Exec.{Result, ok, raise}
use git_hub_repository_resea.Text.{is_char, split}
use git_hub_repository_resea.Security.Users.{Menu, Role, User}

pub record Request : Type 0 where
  pub path : String
  pub method : String
  pub scopes : List String
  pub user : User
  pub permission : Option String

-- RBAC_ROLE_MENU_MODE and RBAC_ROLE_MENU_EXCLUDE, which core/conf.py does not declare and whose
-- environment values it ignores: the code as it stands raises an AttributeError where it reads one.
pub record RbacSettings : Type 0 where
  pub path_exclude : List String
  pub role_menu_mode : Bool
  pub role_menu_exclude : List String

-- `RequestPermission(value)` as a dependency: the identifier that later checks find
unfoldable pub request_permission : RbacSettings → String → Request → Request
request_permission settings value request =
    if settings.role_menu_mode then record request { permission = some value } else request

abbrev pub any {ℓ} : {A : Type ℓ} → (A → Bool) → List A → Bool
any p [] = false
any p (x ∷ xs) = p x || any p xs

abbrev pub is_empty {ℓ} : {A : Type ℓ} → List A → Bool
is_empty [] = true
is_empty (x ∷ xs) = false

-- `status == 0` of the roles themselves: a role is no number, and equals none
abbrev role_is_zero : Role → Bool
role_is_zero role = false

unfoldable pub all_zero : List Role → Bool
all_zero [] = true
all_zero (role ∷ roles) = role_is_zero role && all_zero roles

abbrev pub perms_of : Option String → List String
perms_of none = []
perms_of (some perms) = if truthy perms then split (is_char b',') perms else []

unfoldable pub allow_perms_of_menus : List Menu → List String
allow_perms_of_menus [] = []
allow_perms_of_menus (menu ∷ menus) =
    (if nat_eq menu.status 1 then perms_of menu.perms else []) ++ allow_perms_of_menus menus

-- the loop over roles and menus
unfoldable pub allow_perms : List Role → List String
allow_perms [] = []
allow_perms (role ∷ roles) = allow_perms_of_menus role.menus ++ allow_perms roles

-- the permission of the request against the menus of the user's roles
unfoldable pub verify_menus : List String → Option String → List Role → Result (Unit {0})
verify_menus exclude none roles = ok tt
verify_menus exclude (some perm) roles =
    if not (truthy perm)
    then ok tt
    else if one_of perm exclude
    then ok tt
    else if one_of perm (allow_perms roles)
    then ok tt
    else raise (authorization_error "Permission Denied")

unfoldable pub verify_casbin : Option (Request → Result (Unit {0})) → Request → Result (Unit {0})
verify_casbin none request =
    raise (server_error "Permission verification failed, please contact system administrator")
verify_casbin (some casbin_verify) request = casbin_verify request

-- `method != GET or method != OPTIONS`
abbrev pub is_backend_operation : String → Bool
is_backend_operation method = not (method == "GET") || not (method == "OPTIONS")

unfoldable pub rbac_verify :
    RbacSettings → Option (Request → Result (Unit {0})) → Request → Result (Unit {0})
unfolding verify_menus verify_casbin all_zero
rbac_verify settings casbin request =
    let roles = request.user.roles in
    if one_of request.path settings.path_exclude
    then ok tt
    else if is_empty request.scopes
    then raise (token_error "Not Authenticated" [])
    else if request.user.is_superuser
    then ok tt
    else if is_empty roles || all_zero roles
    then raise
        (authorization_error "User has no assigned roles, please contact system administrator")
    else if not (any (λ role. not (is_empty role.menus)) roles)
    then raise
        (authorization_error "User has no assigned menus, please contact system administrator")
    else if is_backend_operation request.method && not request.user.is_staff
    then raise (
        authorization_error
          "User is forbidden from backend operations, please contact system administrator")
    else if settings.role_menu_mode
    then verify_menus settings.role_menu_exclude request.permission roles
    else verify_casbin casbin request
