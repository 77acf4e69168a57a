-- ===== src/Security/Rbac/Granted.antt =====
-- What a user needs to pass the check of a permission.
use git_hub_repository_resea.Base.{
  String, ◌≡◌, ◌↔◌, refl, Bool, true, false, not, ◌&&◌, ◌||◌, Option, some, List, [], ◌∷◌, ◌++◌,
  ◌==◌, one_of, truthy, nat_eq, arith, eq_iff, ◌∙◌, ap, Bool-cases, inl, inr,
}
use git_hub_repository_resea.Exec.{Result, ok}
use git_hub_repository_resea.Security.Users.{Menu, Role}
use git_hub_repository_resea.Security.Rbac.{
  Request, RbacSettings, any, is_empty, all_zero, perms_of, allow_perms_of_menus, allow_perms,
  verify_menus, is_backend_operation, rbac_verify,
}

-- An enabled menu with the permission among its own, in some role.
abbrev pub grants : String → Menu → Bool
grants perm menu = nat_eq menu.status 1 && one_of perm (perms_of menu.perms)

abbrev pub is_granted : String → List Role → Bool
is_granted perm roles = any (λ role. any (grants perm) role.menus) roles

one_of-++ : (x : String) (l m : List String) → one_of x (l ++ m) ≡ (one_of x l || one_of x m)
one_of-++ x [] m = refl
one_of-++ x (y ∷ l) m = ground (arith, one_of-++ x l m)

one_of-allow_perms_of_menus :
    (perm : String) (menus : List Menu)
    → one_of perm (allow_perms_of_menus menus) ≡ any (grants perm) menus
unfolding allow_perms_of_menus
one_of-allow_perms_of_menus perm [] = refl
one_of-allow_perms_of_menus perm (menu ∷ menus) =
    let rest = one_of-allow_perms_of_menus perm menus in
    elim (Bool-cases (nat_eq menu.status 1)) [
      | inl on ↦ rw on (
          one_of-++ perm (perms_of menu.perms) _
          ∙ ap (λ b. one_of perm (perms_of menu.perms) || b) rest)
      | inr off ↦ rw off rest
    ]

one_of-allow_perms :
    (perm : String) (roles : List Role) → one_of perm (allow_perms roles) ≡ is_granted perm roles
unfolding allow_perms
one_of-allow_perms perm [] = refl
one_of-allow_perms perm (role ∷ roles) =
    one_of-++ perm (allow_perms_of_menus role.menus) (allow_perms roles)
    ∙ ground (arith, one_of-allow_perms_of_menus perm role.menus, one_of-allow_perms perm roles)

-- A permission that some role grants is behind a menu.
granted-has_menus :
    (perm : String) (roles : List Role)
    → is_granted perm roles ≡ true
    → any (λ role. not (is_empty role.menus)) roles ≡ true
granted-has_menus perm [] h = h
granted-has_menus perm (role ∷ roles) h = ground (arith, granted-has_menus perm roles)

all_zero-is_empty : (roles : List Role) → all_zero roles ≡ is_empty roles
unfolding all_zero
all_zero-is_empty [] = refl
all_zero-is_empty (role ∷ roles) = refl

granted-not-empty :
    (perm : String) (roles : List Role) → is_granted perm roles ≡ true → is_empty roles ≡ false
granted-not-empty perm [] h = cc h
granted-not-empty perm (role ∷ roles) h = refl

-- No method is both of the two that the check names.
any_method : (method : String) → is_backend_operation method ≡ true
any_method method = elim (Bool-cases (method == "GET")) [
  | inl get ↦ rw ((eq_iff method "GET").0 get) refl
  | inr other ↦ rw other refl
]

-- In the role-menu mode, for a request that is not on the white list of paths, of an authenticated
-- user who is no super user, with a permission that is not on the white list of permissions, the
-- check passes exactly if the user is staff and an enabled menu of one of the roles has the
-- permission. The method of the request makes no difference, nor does the status of a role.
pub rbac_verify-is_granted :
    (settings : RbacSettings) (casbin : Option (Request → Result (Unit {0}))) (request : Request)
    (perm : String)
    → settings.role_menu_mode ≡ true
    → one_of request.path settings.path_exclude ≡ false
    → is_empty request.scopes ≡ false
    → request.user.is_superuser ≡ false
    → request.permission ≡ some perm
    → truthy perm ≡ true
    → one_of perm settings.role_menu_exclude ≡ false
    → (rbac_verify settings casbin request ≡ ok tt)
      ↔ ((request.user.is_staff && is_granted perm request.user.roles) ≡ true)
unfolding rbac_verify verify_menus
rbac_verify-is_granted settings casbin request perm mode path scopes super asked named checked =
    let roles = request.user.roles in
    rw
      (
        mode,
        path,
        scopes,
        super,
        asked,
        named,
        checked,
        any_method request.method,
        all_zero-is_empty roles,
        one_of-allow_perms perm roles,
      )
      ground (arith, granted-has_menus perm roles, granted-not-empty perm roles)
