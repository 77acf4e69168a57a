-- ===== src/Github/Context.antt =====
-- The models that github_adapter.py builds from the repository in an answer.
use git_hub_repository_resea.Base.{ℕ, String, false, some, List, take, truthy, if◌then◌else◌}
use git_hub_repository_resea.Errors.{other}
use git_hub_repository_resea.Exec.{Result, ok, raise}
use git_hub_repository_resea.Json.{Json, bool, num, text, arr, nil}
use git_hub_repository_resea.Schema.{
  CommitEntry, InstantMetadata, LanguageEntry, ParsedRepoTarget, RepositoryRawContext,
}
use git_hub_repository_resea.Github.Decode.{
  ◌>>=◌, Pydantic, collect, commits_of, each, empty, get, get_or, index, languages_of, none_or,
  or_else, topics_of, tree_entry_of, truth,
}

-- `(v.get(outer) or {}).get(inner)`
unfoldable pub inner_of : String → String → Json → Result Json
unfolding get_or or_else
inner_of outer inner v = do o ← get outer v; get inner (or_else o empty)

-- `v.get(k) or w[l]`, whose second part is only looked up where it is needed
unfoldable pub get_or_index : String → String → Json → Result Json
unfolding get_or index truth
get_or_index k l v = do a ← get k v; if truth a then ok a else index l v

-- `Field(min_length=1)`
abbrev pub not_empty : String → Result String
not_empty s = if truthy s then ok s else raise (other "String should have at least 1 character")

module _ (py : Pydantic) where
  -- `InstantMetadata(…)`
  unfoldable pub metadata_of :
      ParsedRepoTarget
      → Json
      → Json
      → Json
      → List String
      → List LanguageEntry
      → List CommitEntry
      → Result InstantMetadata
  unfolding get_or or_else inner_of get_or_index
  metadata_of target repository commit open_issues topics languages recent_commits = do
    name ← get_or_index "nameWithOwner" "name" repository
    description ← get "description" repository
    stars ← get_or "stargazerCount" (num 0) repository
    forks ← get_or "forkCount" (num 0) repository
    primary_lang ← inner_of "primaryLanguage" "name" repository
    committed ← get "committedDate" commit
    pushed ← get "pushedAt" repository
    watchers ← inner_of "watchers" "totalCount" repository
    license_spdx ← inner_of "licenseInfo" "spdxId" repository
    is_archived ← get_or "isArchived" (bool false) repository
    is_fork ← get_or "isFork" (bool false) repository
    name' ← py.str name
    name'' ← not_empty name'
    description' ← none_or py.str description
    stars' ← py.int stars
    forks' ← py.int forks
    primary_lang' ← none_or py.str primary_lang
    last_commit_at' ← none_or py.datetime (or_else committed pushed)
    watchers' ← none_or py.int watchers
    open_issues' ← none_or py.int open_issues
    license_spdx' ← none_or py.str license_spdx
    is_archived' ← py.boolean is_archived
    is_fork' ← py.boolean is_fork
    ok (record {
      name = name'';
      description = description';
      stars = stars';
      forks = forks';
      primary_lang = primary_lang';
      last_commit_at = last_commit_at';
      owner = some target.owner;
      watchers = watchers';
      open_issues = open_issues';
      license_spdx = license_spdx';
      topics = topics;
      languages = languages;
      recent_commits = recent_commits;
      is_archived = is_archived';
      is_fork = is_fork';
    })

  -- `RepositoryRawContext(…)`
  unfoldable pub raw_context_of :
      ParsedRepoTarget
      → ℕ
      → Json
      → Json
      → Json
      → Json
      → Json
      → List Json
      → InstantMetadata
      → Result RepositoryRawContext
  unfolding get_or or_else index collect tree_entry_of
  raw_context_of target max_tree_entries repository branch commit readme open_issues entries
        instant =
      do
        repository_url ← index "url" repository
        default_branch ← get "name" branch
        commit_sha ← get "oid" commit
        readme_text ← get "text" readme
        readme_byte_size ← get "byteSize" readme
        tree_entries ← collect (tree_entry_of py) (take max_tree_entries entries)
        repository_url' ← py.str repository_url
        default_branch' ← py.str (or_else default_branch (text "HEAD"))
        commit_sha' ← py.str (or_else commit_sha (text "unknown"))
        readme_text' ← none_or py.str readme_text
        readme_byte_size' ← none_or py.int readme_byte_size
        open_issue_count ← none_or py.int open_issues
        ok (record {
          target = target;
          repository_url = repository_url';
          default_branch = default_branch';
          commit_sha = commit_sha';
          instant_data = instant;
          readme_text = readme_text';
          readme_byte_size = readme_byte_size';
          tree_entries = tree_entries;
          open_issue_count = open_issue_count;
        })

  -- what follows the checks of the answer
  unfoldable pub context_of : ParsedRepoTarget → ℕ → Json → Result RepositoryRawContext
  unfolding get_or or_else each inner_of topics_of languages_of commits_of metadata_of
      raw_context_of
  context_of target max_tree_entries repository = do
    default_branch ← get "defaultBranchRef" repository
    let branch = or_else default_branch empty
    branch_target ← get "target" branch
    let commit = or_else branch_target empty
    commit_tree ← get "tree" commit
    tree_entries ← get "entries" (or_else commit_tree empty)
    lower ← get "readmeLower" repository
    upper ← get "readmeUpper" repository
    let readme = or_else lower (or_else upper empty)
    languages ← languages_of py repository
    topics ← topics_of py repository
    recent_commits ← commits_of py commit
    open_issues ← inner_of "openIssues" "totalCount" repository
    instant ← metadata_of target repository commit open_issues topics languages recent_commits
    entries ← each (or_else tree_entries (arr nil))
    raw_context_of target max_tree_entries repository branch commit readme open_issues entries
        instant
