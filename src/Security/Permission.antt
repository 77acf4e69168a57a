-- ===== src/Security/Permission.antt =====
-- common/security/permission.py: the filter that a user's data rules put on the rows that it sees.
-- Which rules are the same object, and the models that the settings import, are parameters.
pub mod Columns
use git_hub_repository_resea.Base.{
  ℕ, String, Bool, true, false, not, ◌&&◌, ◌||◌, Option, none, some, List, [], ◌∷◌, ◌++◌, ◌==◌,
  one_of, nat_eq, if◌then◌else◌,
}
use git_hub_repository_resea.Errors.{Error, not_found_error}
use git_hub_repository_resea.Exec.{Result, ok, raise, and_then}
use git_hub_repository_resea.Text.{is_char, split}
use git_hub_repository_resea.Security.Users.{RuleValue, one, several, DataRule, Role, User}

-- A comparison of a column with a value, which the database evaluates.
pub data Comparison : Type 0 where
  eq ne gt ge lt le : RuleValue → Comparison
  in_list not_in_list : List String → Comparison

pub record Condition : Type 0 where
  pub model : String
  pub column : String
  pub comparison : Comparison

-- `and_(…)` and `or_(…)` of conditions, and the `or_` of those groups
pub data Group : Type 0 where
  all_of any_of : List Condition → Group

pub data Filter : Type 0 where
  everything : Filter
  some_of : List Group → Filter

-- The DATA_PERMISSION settings, which core/conf.py does not declare either: the code as it stands
-- raises an AttributeError where it reads one.
pub record PermissionSettings : Type 0 where
  pub models : List (String × String)
  pub column_exclude : List String

unfoldable pub path_of : String → List (String × String) → Option String
path_of name [] = none
path_of name ((model, path) ∷ rest) = if model == name then some path else path_of name rest

abbrev values_of : RuleValue → List String
values_of (one text) = split (is_char b',') text
values_of (several l) = l

unfoldable pub comparison_of : ℕ → RuleValue → Option Comparison
comparison_of expression value =
    if nat_eq expression 0
    then some (eq value)
    else if nat_eq expression 1
    then some (ne value)
    else if nat_eq expression 2
    then some (gt value)
    else if nat_eq expression 3
    then some (ge value)
    else if nat_eq expression 4
    then some (lt value)
    else if nat_eq expression 5
    then some (le value)
    else if nat_eq expression 6
    then some (in_list (values_of value))
    else if nat_eq expression 7
    then some (not_in_list (values_of value))
    else none

-- a rule without a known expression adds nothing
abbrev pub condition_of : DataRule → Option Comparison → Option Condition
condition_of rule none = none
condition_of rule (some c) =
    some (record { model = rule.model; column = rule.column; comparison = c })

-- the two lists that the loop fills
abbrev pub Wheres : Type 0
Wheres = List Condition × List Condition

unfoldable pub add_condition : ℕ → Option Condition → Wheres → Wheres
add_condition operator none wheres = wheres
add_condition operator (some c) (ands, ors) =
    if nat_eq operator 0
    then (ands ++ (c ∷ []), ors)
    else if nat_eq operator 1
    then (ands, ors ++ (c ∷ []))
    else (ands, ors)

-- dict.fromkeys: the first of equal rules stays
unfoldable pub is_known : (DataRule → DataRule → Bool) → DataRule → List DataRule → Bool
is_known same rule [] = false
is_known same rule (r ∷ rest) = same r rule || is_known same rule rest

unfoldable pub distinct_from :
    (DataRule → DataRule → Bool) → List DataRule → List DataRule → List DataRule
unfolding is_known
distinct_from same seen [] = []
distinct_from same seen (rule ∷ rest) =
    let without = distinct_from same seen rest in
    let rules = distinct_from same (rule ∷ seen) rest in
    if is_known same rule seen then without else rule ∷ rules

unfoldable pub rules_of : List Role → List DataRule
rules_of [] = []
rules_of (role ∷ roles) = role.rules ++ rules_of roles

abbrev pub and_group : List Condition → List Group
and_group [] = []
and_group (c ∷ cs) = all_of (c ∷ cs) ∷ []

abbrev pub or_group : List Condition → List Group
or_group [] = []
or_group (c ∷ cs) = any_of (c ∷ cs) ∷ []

abbrev pub filter_of_groups : List Group → Filter
filter_of_groups [] = everything
filter_of_groups (g ∷ gs) = some_of (g ∷ gs)

unfoldable pub combine : Wheres → Filter
combine (ands, ors) = filter_of_groups (and_group ands ++ or_group ors)

module _ (settings : PermissionSettings) (columns_of : String → Result (List String))
    (same : DataRule → DataRule → Bool) where
  abbrev pub is_visible : String → List String → Bool
  is_visible column columns = one_of column columns && not (one_of column settings.column_exclude)

  abbrev pub check_column : DataRule → List String → Result (Unit {0})
  check_column rule columns =
      if is_visible rule.column columns
      then ok tt
      else raise (not_found_error "Data rule model column does not exist")

  abbrev pub check_model : DataRule → Option String → Result (Unit {0})
  check_model rule none = raise (not_found_error "Data rule model does not exist")
  check_model rule (some path) = and_then (columns_of path) (check_column rule)

  -- one pass of the loop
  unfoldable pub add_rule : DataRule → Wheres → Result Wheres
  unfolding add_condition comparison_of path_of
  add_rule rule wheres = and_then (check_model rule (path_of rule.model settings.models)) (λ u. ok (
      add_condition rule.operator (condition_of rule (comparison_of rule.expression rule.value))
        wheres))

  unfoldable pub add_rules : List DataRule → Wheres → Result Wheres
  add_rules [] wheres = ok wheres
  add_rules (rule ∷ rules) wheres = and_then (add_rule rule wheres) (add_rules rules)

  abbrev pub filter_of_rules : List DataRule → Result Filter
  filter_of_rules [] = ok everything
  filter_of_rules (rule ∷ rules) =
      and_then (add_rules (rule ∷ rules) ([], [])) (λ wheres. ok (combine wheres))

  unfoldable pub filter_data_permission : User → Result Filter
  unfolding add_rules combine distinct_from rules_of
  filter_data_permission user =
      let filter = filter_of_rules (distinct_from same [] (rules_of user.roles)) in
      if user.is_superuser then ok everything else filter
