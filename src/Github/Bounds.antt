-- ===== src/Github/Bounds.antt =====
-- What every context has that the adapter reads from an answer.
use git_hub_repository_resea.Base.{
  ℕ, ◌≤◌, String, ◌≡◌, refl, ◌∙◌, sym, subst, true, ◌&&◌, Option, none, some, List, [], ◌∷◌, All,
  length, length-take-le, arith, truthy, Bool-cases, inl, inr,
}
use git_hub_repository_resea.Exec.{Result, ok, raise, and_then}
use git_hub_repository_resea.Exec.Hoare.{bind_ok as exec_ok}
use git_hub_repository_resea.Json.{Json, text}
use git_hub_repository_resea.Schema.{
  CommitEntry, InstantMetadata, LanguageEntry, ParsedRepoTarget, RepositoryRawContext,
}
use git_hub_repository_resea.Text.{size}
use git_hub_repository_resea.Text.Laws.{size-left}
use git_hub_repository_resea.Github.Decode.{
  ◌>>=◌, Pydantic, add_if, collect, commit_of, commits_of, dated_commit, none_or, short,
  tree_entry_of, truth,
}
use git_hub_repository_resea.Github.Context.{not_empty, metadata_of, raw_context_of, context_of}
use git_hub_repository_resea.Github.{
  Answer, GraphQl, query, context_in, fetch_repository_context, body_of, repository_in,
}

-- A block that gives a value has passed its first step.
bind_ok :
    {A B : Type 0} (r : Result A) (f : A → Result B) {b : B}
    → (r >>= f) ≡ ok b
    → (a : A) × (r ≡ ok a) × (f a ≡ ok b)
unfolding ◌>>=◌
bind_ok (ok a) f e = (a, refl, e)
bind_ok (raise x) f e = cc e

length-collect :
    {A : Type 0} (f : Json → Result (Option A)) (l : List Json) {out : List A}
    → collect f l ≡ ok out
    → length out ≤ length l
unfolding collect
length-collect f [] e = ground arith
length-collect f (v ∷ l) e =
    let (o, _, rest) = bind_ok (f v) _ e in
    let (tail, collected, done) = bind_ok (collect f l) _ rest in
    let shorter = length-collect f l collected in ground arith

-- Whenever `r` gives a value, it has `P`.
record Ensures {A : Type 0} (P : A → Type 0) (r : Result A) : Type 0 where
  pub at : (a : A) → r ≡ ok a → P a

pass :
    {A B : Type 0} {P : B → Type 0} {r : Result A} {f : A → Result B}
    → ((a : A) → r ≡ ok a → Ensures P (f a))
    → Ensures P (r >>= f)
pass {r} {f} h = record {
  at = λ b e. let (a, given, rest) = bind_ok r f e in (h a given).at b rest;
}

value : {A : Type 0} {a b : A} → ok a ≡ ok b → a ≡ b
value e = ground arith

gives : {A : Type 0} {P : A → Type 0} {a : A} → P a → Ensures P (ok a)
gives {P} h = record { at = λ b e. subst P (value e) h }

truthy-not_empty : (s : String) {t : String} → not_empty s ≡ ok t → truthy t ≡ true
truthy-not_empty s e = ground arith

-- The sha of a commit that is kept has at most seven characters.
abbrev pub IsShort : CommitEntry → Type 0
IsShort c = size c.sha ≤ 7

-- a context that the adapter reads for a target
pub record IsContext (target : ParsedRepoTarget) (max_tree_entries : ℕ) (raw : RepositoryRawContext)
    : Type 0 where
  pub target_kept : raw.target ≡ target
  pub owner : raw.instant_data.owner ≡ some target.owner
  pub named : truthy raw.instant_data.name ≡ true
  pub issues : raw.open_issue_count ≡ raw.instant_data.open_issues
  pub few_entries : length raw.tree_entries ≤ max_tree_entries
  pub short_shas : All IsShort raw.instant_data.recent_commits

module _ (py : Pydantic) where
  metadata_of_ok :
      (target : ParsedRepoTarget) (repository commit open_issues : Json) (topics : List String)
      (languages : List LanguageEntry) (commits : List CommitEntry)
      → Ensures
          (λ m.
            (m.owner ≡ some target.owner)
            × (m.recent_commits ≡ commits)
            × (none_or py.int open_issues ≡ ok m.open_issues)
            × (truthy m.name ≡ true))
          (metadata_of py target repository commit open_issues topics languages commits)
  unfolding metadata_of
  metadata_of_ok target repository commit open_issues topics languages commits = pass λ _ _.
      pass λ _ _. pass λ _ _. pass λ _ _. pass λ _ _. pass λ _ _. pass λ _ _. pass λ _ _.
        pass λ _ _. pass λ _ _. pass λ _ _. pass λ _ _. pass λ s named. pass λ _ _. pass λ _ _.
          pass λ _ _. pass λ _ _. pass λ _ _. pass λ _ _. pass λ _ counted.
            pass
              λ _ _. pass λ _ _. pass λ _ _. gives (refl, refl, counted, truthy-not_empty _ named)

  raw_context_of_ok :
      (target : ParsedRepoTarget) (max_tree_entries : ℕ)
      (repository branch commit readme open_issues : Json) (entries : List Json)
      (instant : InstantMetadata)
      → Ensures
          (λ raw.
            (raw.target ≡ target)
            × (raw.instant_data ≡ instant)
            × (none_or py.int open_issues ≡ ok raw.open_issue_count)
            × (length raw.tree_entries ≤ max_tree_entries))
          (raw_context_of py target max_tree_entries repository branch commit readme open_issues
            entries instant)
  unfolding raw_context_of
  raw_context_of_ok target max_tree_entries repository branch commit readme open_issues entries
        instant =
      pass λ _ _. pass λ _ _. pass λ _ _. pass λ _ _. pass λ _ _. pass λ _ collected. pass λ _ _.
        pass λ _ _. pass λ _ _. pass λ _ _. pass λ _ _. pass λ _ counted. gives (
          refl,
          refl,
          counted,
          omega (
            arith,
            length-collect (tree_entry_of py) _ collected,
            length-take-le max_tree_entries entries,
          ),
        )

  abbrev IsShortIf : Option CommitEntry → Type 0
  IsShortIf none = Unit
  IsShortIf (some c) = IsShort c

  short_ok : (v : Json) → Ensures (λ sha. size sha ≤ 7) (short v)
  unfolding short
  short_ok (text s) = gives (ground (arith, size-left 7 s))
  short_ok _ = record { at = λ sha e. cc e }

  dated_commit_ok :
      (node oid committed : Json) → Ensures IsShortIf (dated_commit py node oid committed)
  unfolding dated_commit
  dated_commit_ok node oid committed = elim (Bool-cases (truth oid && truth committed)) [
    | inl both ↦ rw both (
        pass λ sha cut. pass λ _ _.
          pass λ _ _.
            pass λ _ _. pass λ _ _. pass λ _ _. pass λ _ _. gives ((short_ok oid).at sha cut))
    | inr other ↦ rw other (gives tt)
  ]

  commit_of_ok : (node : Json) → Ensures IsShortIf (commit_of py node)
  unfolding commit_of
  commit_of_ok node = pass λ oid _. pass λ committed _. dated_commit_ok node oid committed

  collect-commit_of : (l : List Json) → Ensures (All IsShort) (collect (commit_of py) l)
  unfolding collect
  collect-commit_of [] = gives tt
  collect-commit_of (v ∷ l) = pass λ o one. pass λ rest more.
      gives (added o rest ((commit_of_ok v).at o one) ((collect-commit_of l).at rest more))
    where
      added :
          (o : Option CommitEntry) (l : List CommitEntry)
          → IsShortIf o
          → All IsShort l
          → All IsShort (add_if o l)
      added none l h hs = hs
      added (some c) l h hs = (h, hs)

  commits_of_ok : (commit : Json) → Ensures (All IsShort) (commits_of py commit)
  unfolding commits_of
  commits_of_ok commit = pass λ _ _. pass λ _ _. pass λ l _. collect-commit_of l

  context_of_ok :
      (target : ParsedRepoTarget) (max_tree_entries : ℕ) (repository : Json)
      → Ensures
          (IsContext target max_tree_entries)
          (context_of py target max_tree_entries repository)
  unfolding context_of
  context_of_ok target max_tree_entries repository = pass λ _ _. pass λ _ _. pass λ _ _. pass λ _ _.
      pass λ _ _. pass λ _ _. pass λ _ _. pass λ _ _. pass λ commits read. pass λ open_issues _.
        pass λ instant made. pass λ entries _. record {
          at = λ raw built.
              let md =
                (metadata_of_ok target repository _ open_issues _ _ commits).at instant made in
              let rc =
                (raw_context_of_ok target max_tree_entries repository _ _ _ open_issues entries
                    instant).at
                  raw built in
              record {
                target_kept = rc.0;
                owner = rw rc.1 md.0;
                named = rw rc.1 md.3;
                issues = rw rc.1 (value (sym rc.2 ∙ md.2));
                few_entries = rc.3;
                short_shas = rw (rc.1, md.1) ((commits_of_ok _).at commits read);
              };
        }

  pass_then :
      {A B : Type 0} {P : B → Type 0} (r : Result A) (f : A → Result B)
      → ((a : A) → Ensures P (f a))
      → Ensures P (and_then r f)
  pass_then (ok a) f h = h a
  pass_then (raise x) f h = record { at = λ b e. cc e }

  context_in_ok :
      (target : ParsedRepoTarget) (max_tree_entries : ℕ) (answer : Answer)
      → Ensures (IsContext target max_tree_entries) (context_in py max_tree_entries target answer)
  unfolding context_in
  context_in_ok target max_tree_entries answer =
      pass_then (body_of answer) _
        (λ body. pass_then (repository_in target body) _ (context_of_ok target max_tree_entries))

-- A context that the adapter returns is that of the target, with the target's owner and a name that
-- is not empty; the two counts of open issues agree, no more entries of the tree are kept than the
-- setting allows, and every commit's sha is cut to at most seven characters.
pub fetch_repository_context-IsContext :
    {N : Type 0} (graphql : GraphQl N) (py : Pydantic) (token : String) (max_tree_entries : ℕ)
    (target : ParsedRepoTarget) (n : N) {raw : RepositoryRawContext}
    → (fetch_repository_context graphql py token max_tree_entries target n).0 ≡ ok raw
    → IsContext target max_tree_entries raw
unfolding fetch_repository_context
fetch_repository_context-IsContext graphql py token max_tree_entries target n {raw} returned =
    elim (Bool-cases (truthy token)) [
      | inl given ↦
          let (answer, _, rest, _) =
            exec_ok (graphql.post query token target.owner target.repo) _ n
              (rw given at returned) in
          (context_in_ok py target max_tree_entries answer).at raw rest
      | inr missing ↦ let refused = rw missing at returned in cc refused
    ]
