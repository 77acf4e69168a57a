-- ===== src/Security/Permission/Columns.antt =====
-- Which columns a filter reads.
use git_hub_repository_resea.Base.{
  ℕ, String, ◌≡◌, refl, subst, Bool, true, Option, none, some, List, [], ◌∷◌, ◌++◌, All, arith,
  nat_eq, Bool-cases, inl, inr,
}
use git_hub_repository_resea.Exec.{Result, ok}
use git_hub_repository_resea.Exec.Hoare.{and_then_ok}
use git_hub_repository_resea.Security.Users.{DataRule, User}
use git_hub_repository_resea.Security.Permission.{
  Comparison, Condition, Group, all_of, any_of, Filter, everything, some_of, PermissionSettings,
  path_of, comparison_of, Wheres, add_condition, combine, is_visible, check_model, condition_of,
  add_rule, add_rules, filter_data_permission, distinct_from, rules_of, filter_of_rules,
}

All-++ : {A : Type 0} (P : A → Type 0) (l m : List A) → All P l → All P m → All P (l ++ m)
All-++ P [] m h k = k
All-++ P (x ∷ l) m h k = (h.0, All-++ P l m h.1 k)

module _ (settings : PermissionSettings) (columns_of : String → Result (List String))
    (same : DataRule → DataRule → Bool) where
  -- The model is one of the settings', and the column is one of its columns and not left out.
  abbrev pub IsPermitted : Condition → Type 0
  IsPermitted c =
      (path : String) × (path_of c.model settings.models ≡ some path)
      × (columns : List String) × (columns_of path ≡ ok columns)
      × (is_visible settings columns_of same c.column columns ≡ true)

  abbrev pub HasPermitted : Group → Type 0
  HasPermitted (all_of l) = All IsPermitted l
  HasPermitted (any_of l) = All IsPermitted l

  abbrev pub IsPermittedFilter : Filter → Type 0
  IsPermittedFilter everything = Unit
  IsPermittedFilter (some_of groups) = All HasPermitted groups

  abbrev ArePermitted : Wheres → Type 0
  ArePermitted (ands, ors) = All IsPermitted ands × All IsPermitted ors

  check_model_ok :
      (rule : DataRule) (path : Option String)
      → path_of rule.model settings.models ≡ path
      → check_model settings columns_of same rule path ≡ ok tt
      → (p : String) × (path_of rule.model settings.models ≡ some p)
        × (columns : List String) × (columns_of p ≡ ok columns)
        × (is_visible settings columns_of same rule.column columns ≡ true)
  check_model_ok rule none e checked = cc checked
  check_model_ok rule (some p) e checked =
      let (columns, read, visible) = and_then_ok (columns_of p) _ checked in
      (p, e, columns, read, ground arith)

  add_condition-ArePermitted :
      (operator : ℕ) (c : Option Condition) (wheres : Wheres)
      → ((d : Condition) → c ≡ some d → IsPermitted d)
      → ArePermitted wheres
      → ArePermitted (add_condition operator c wheres)
  unfolding add_condition
  add_condition-ArePermitted operator none (ands, ors) new held = held
  add_condition-ArePermitted operator (some c) (ands, ors) new (h, k) =
      elim (Bool-cases (nat_eq operator 0)) [
        | inl conj ↦ rw conj (All-++ IsPermitted ands (c ∷ []) h (new c refl, tt), k)
        | inr not_and ↦ elim (Bool-cases (nat_eq operator 1)) [
          | inl disj ↦ rw (not_and, disj) (h, All-++ IsPermitted ors (c ∷ []) k (new c refl, tt))
          | inr neither ↦ rw (not_and, neither) (h, k)
        ]
      ]

  add_rule-ArePermitted :
      (rule : DataRule) (wheres : Wheres) {next : Wheres}
      → ArePermitted wheres
      → add_rule settings columns_of same rule wheres ≡ ok next
      → ArePermitted next
  unfolding add_rule
  add_rule-ArePermitted rule wheres {next} held returned =
      let (u, checked, e) = and_then_ok (check_model settings columns_of same rule _) _ returned in
      let (path, found, columns, read, visible) = check_model_ok rule _ refl checked in
      let c = condition_of rule (comparison_of rule.expression rule.value) in
      let added =
        add_condition-ArePermitted rule.operator c wheres
          (permitted (comparison_of rule.expression rule.value) path found columns read visible)
          held in
      let same_wheres : add_condition rule.operator c wheres ≡ next = cc e in
      subst ArePermitted same_wheres added
    where
      permitted :
          (comparison : Option Comparison) (path : String)
          → path_of rule.model settings.models ≡ some path
          → (columns : List String) → columns_of path ≡ ok columns
          → is_visible settings columns_of same rule.column columns ≡ true
          → (d : Condition) → condition_of rule comparison ≡ some d
          → IsPermitted d
      permitted none path found columns read visible d e = cc e
      permitted (some x) path found columns read visible d e =
          let same_condition : record { model = rule.model; column = rule.column; comparison = x }
              ≡ d =
            cc e in
          subst IsPermitted same_condition (path, found, columns, read, visible)

  add_rules-ArePermitted :
      (rules : List DataRule) (wheres : Wheres) {next : Wheres}
      → ArePermitted wheres
      → add_rules settings columns_of same rules wheres ≡ ok next
      → ArePermitted next
  unfolding add_rules
  add_rules-ArePermitted [] wheres held returned =
      let e : wheres ≡ _ = cc returned in subst ArePermitted e held
  add_rules-ArePermitted (rule ∷ rules) wheres held returned =
      let (w, added, rest) =
        and_then_ok (add_rule settings columns_of same rule wheres) _ returned in
      add_rules-ArePermitted rules w (add_rule-ArePermitted rule wheres held added) rest

  combine-IsPermittedFilter :
      (wheres : Wheres) → ArePermitted wheres → IsPermittedFilter (combine wheres)
  unfolding combine
  combine-IsPermittedFilter ([], []) h = tt
  combine-IsPermittedFilter (c ∷ ands, []) h = (h.0, tt)
  combine-IsPermittedFilter ([], d ∷ ors) h = (h.1, tt)
  combine-IsPermittedFilter (c ∷ ands, d ∷ ors) h = (h.0, (h.1, tt))

  -- A filter that is returned reads only columns that the settings let it: each of its conditions is
  -- about a model that the settings name, and about a column of that model that is not left out.
  pub filter_data_permission-IsPermittedFilter :
      (user : User) {filter : Filter}
      → filter_data_permission settings columns_of same user ≡ ok filter
      → IsPermittedFilter filter
  unfolding filter_data_permission
  filter_data_permission-IsPermittedFilter user {filter} returned =
      elim (Bool-cases user.is_superuser) [
        | inl super ↦
            let e : everything ≡ filter = cc (super, returned) in subst IsPermittedFilter e tt
        | inr usual ↦ of_rules (distinct_from same [] (rules_of user.roles)) (cc (usual, returned))
      ]
    where
      of_rules :
          (rules : List DataRule) {f : Filter}
          → filter_of_rules settings columns_of same rules ≡ ok f
          → IsPermittedFilter f
      of_rules [] {f} e =
          let same_filter : everything ≡ f = cc e in subst IsPermittedFilter same_filter tt
      of_rules (rule ∷ rules) {f} e =
          let (w, added, combined) =
            and_then_ok (add_rules settings columns_of same (rule ∷ rules) ([], [])) _ e in
          let same_filter : combine w ≡ f = cc combined in
          subst IsPermittedFilter same_filter (
            combine-IsPermittedFilter w
              (add_rules-ArePermitted (rule ∷ rules) ([], []) (tt, tt) added))
