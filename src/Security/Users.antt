-- ===== src/Security/Users.antt =====
-- common/security/jwt.py: the checks of a user that is loaded. The records hold the fields of the
-- `app.admin` models that common/security reads; a status is an integer, and 0 is locked.
use git_hub_repository_resea.Base.{
  ℕ, zero, suc, String, Bool, true, ◌&&◌, Option, none, some, List, [], ◌∷◌, not, ◌||◌, nat_eq,
  if◌then◌else◌,
}
use git_hub_repository_resea.Errors.{other, token_error, authorization_error}
use git_hub_repository_resea.Exec.{Result, ok, raise, and_then}

pub record Menu : Type 0 where
  pub perms : Option String
  pub status : ℕ

-- The value of a rule is a text or a list of them; the expression and the operator are integers.
pub data RuleValue : Type 0 where
  one : String → RuleValue
  several : List String → RuleValue

pub record DataRule : Type 0 where
  pub model : String
  pub column : String
  pub operator : ℕ
  pub expression : ℕ
  pub value : RuleValue

pub record Role : Type 0 where
  pub status : ℕ
  pub menus : List Menu
  pub rules : List DataRule

pub record Department : Type 0 where
  pub status : ℕ
  pub del_flag : Bool

pub record User : Type 0 where
  pub status : ℕ
  pub is_superuser : Bool
  pub is_staff : Bool
  pub dept_id : Option ℕ
  pub dept : Option Department
  pub roles : List Role

abbrev pub is_truthy : ℕ → Bool
is_truthy n = not (nat_eq n 0)

-- The department is read only for a user that has the id of one.
unfoldable pub check_department : Option ℕ → Option Department → Result (Unit {0})
check_department none dept = ok tt
check_department (some zero) dept = ok tt
check_department (some (suc n)) none = raise (other "'NoneType' object has no attribute 'status'")
check_department (some (suc n)) (some d) =
    if not (is_truthy d.status)
    then raise
        (authorization_error "User's department is locked, please contact system administrator")
    else if d.del_flag
    then raise (
        authorization_error
          "User's department has been deleted, please contact system administrator")
    else ok tt

-- all(status == 0 for status in role_status)
unfoldable pub all_locked : List Role → Bool
all_locked [] = true
all_locked (role ∷ roles) = nat_eq role.status 0 && all_locked roles

unfoldable pub check_roles : List Role → Result (Unit {0})
unfolding all_locked
check_roles [] = ok tt
check_roles (role ∷ roles) =
    if all_locked (role ∷ roles)
    then raise (authorization_error "User's roles are locked, please contact system administrator")
    else ok tt

-- get_current_user, from what the query of the user gave
unfoldable pub current_user : Option User → Result User
unfolding check_department check_roles
current_user none = raise (token_error "Invalid token" [])
current_user (some user) =
    if not (is_truthy user.status)
    then raise (authorization_error "User is locked, please contact system administrator")
    else and_then (check_department user.dept_id user.dept)
        (λ u. and_then (check_roles user.roles) (λ v. ok user))

unfoldable pub superuser_verify : User → Result Bool
superuser_verify user =
    if not user.is_superuser || not user.is_staff
    then raise (authorization_error "Permission Denied")
    else ok user.is_superuser
