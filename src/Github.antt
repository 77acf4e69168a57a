-- ===== src/Github.antt =====
-- app/research/adapters/github_adapter.py. The HTTP client is a parameter: one POST to the endpoint,
-- with its body and token, which answers with a JSON body or an exception of the client.
pub mod Decode
pub mod Context
pub mod Bounds
use git_hub_repository_resea.Base.{
  ℕ, String, Bool, true, Option, none, some, List, [], ◌∷◌, truthy, ◌==◌, if◌then◌else◌,
}
use git_hub_repository_resea.Errors.{Error, simple_problem, other}
use git_hub_repository_resea.Exec.{Exec, Result, ok, raise, and_then, continue, throw, lift, ◌>>=◌}
use git_hub_repository_resea.Json.{Json, null, text, arr, obj, JsonList, JsonFields, nil, cons}
use git_hub_repository_resea.Schema.{ParsedRepoTarget, RepositoryRawContext}
use git_hub_repository_resea.Text.{◌<>◌, contains, join, show}
use git_hub_repository_resea.Ports.{GitHubClient}
use Decode.{Pydantic, empty, get, get_or, truth}
use Context.{context_of}

-- the GraphQL query, line by line
abbrev pub query_lines : List String
query_lines =
    "\n" ∷ "    query RepositoryResearch($owner: String!, $name: String!) {\n"
    ∷ "      repository(owner: $owner, name: $name) {\n" ∷ "        name\n"
    ∷ "        nameWithOwner\n" ∷ "        url\n" ∷ "        description\n"
    ∷ "        stargazerCount\n" ∷ "        forkCount\n" ∷ "        primaryLanguage { name }\n"
    ∷ "        pushedAt\n" ∷ "        isArchived\n" ∷ "        isFork\n"
    ∷ "        watchers { totalCount }\n"
    ∷ "        openIssues: issues(states: OPEN) { totalCount }\n"
    ∷ "        licenseInfo { spdxId }\n"
    ∷ "        repositoryTopics(first: 10) { nodes { topic { name } } }\n"
    ∷ "        languages(first: 10, orderBy: {field: SIZE, direction: DESC}) {\n"
    ∷ "          edges { size node { name color } }\n" ∷ "          totalSize\n" ∷ "        }\n"
    ∷ "        defaultBranchRef {\n" ∷ "          name\n" ∷ "          target {\n"
    ∷ "            ... on Commit {\n" ∷ "              oid\n" ∷ "              committedDate\n"
    ∷ "              history(first: 90) {\n" ∷ "                nodes {\n"
    ∷ "                  oid\n" ∷ "                  messageHeadline\n"
    ∷ "                  committedDate\n" ∷ "                  author { name }\n"
    ∷ "                }\n" ∷ "              }\n" ∷ "              tree {\n"
    ∷ "                entries {\n" ∷ "                  name\n" ∷ "                  type\n"
    ∷ "                }\n" ∷ "              }\n" ∷ "            }\n" ∷ "          }\n"
    ∷ "        }\n" ∷ "        readmeLower: object(expression: \"HEAD:README.md\") {\n"
    ∷ "          ... on Blob {\n" ∷ "            text\n" ∷ "            byteSize\n"
    ∷ "          }\n" ∷ "        }\n"
    ∷ "        readmeUpper: object(expression: \"HEAD:README.MD\") {\n"
    ∷ "          ... on Blob {\n" ∷ "            text\n" ∷ "            byteSize\n"
    ∷ "          }\n" ∷ "        }\n" ∷ "      }\n" ∷ "    }\n" ∷ "    " ∷ []

unfoldable pub query : String
unfolding join
query = join "" query_lines

-- What a request comes to: a body, an answer of a status that `raise_for_status` refuses, another
-- exception of httpx, or an exception that is not httpx's.
pub data Answer : Type 0 where
  answered : Json → Answer
  status_error : ℕ → Answer
  http_error : String → Answer
  failed : Error → Answer

-- The request: the query, the token, the owner and the name; the other headers are fixed.
pub record GraphQl (N : Type 0) : Type 0 where
  pub post : String → String → String → String → Exec N Answer

abbrev pub upstream_error : String → String → Error
upstream_error title detail = simple_problem 502 "/problems/github-upstream-error" title detail

abbrev pub token_missing : Error
token_missing =
    simple_problem 503 "/problems/github-token-missing" "GitHub token missing"
      "GITHUB_TOKEN must be configured before repository analysis can run."

abbrev pub not_found : ParsedRepoTarget → Error
not_found target =
    simple_problem 404 "/problems/repository-not-found" "Repository not found" (
      "Repository " <> target.owner <> "/" <> target.repo
      <> " could not be found or is not public.")

-- the two `except` clauses of the request
unfoldable pub body_of : Answer → Result Json
body_of (answered body) = ok body
body_of (status_error code) = raise (
    upstream_error "GitHub request failed"
      ("GitHub returned " <> show code <> " while fetching repository data."))
body_of (http_error message) = raise (upstream_error "GitHub request failed" message)
body_of (failed exc) = raise exc

-- the exception for the first error of an answer; GraphQL gives each error a text
unfoldable pub query_error : ParsedRepoTarget → Json → Error
query_error target (text message) =
    if contains message "Could not resolve to a Repository"
    then not_found target
    else upstream_error "GitHub query failed" message
query_error target _ = other "argument of this type is not iterable"

abbrev first_of : Json → Result Json
first_of (arr (cons e l)) = ok e
first_of _ = raise (other "object has no first element")

-- `if errors:`
unfoldable pub check_errors : ParsedRepoTarget → Json → Result (Unit {0})
check_errors target errors =
    if truth errors
    then and_then (first_of errors) (λ e.
      and_then (get_or "message" (text "GitHub GraphQL query failed") e)
        (λ message. raise (query_error target message)))
    else ok tt

-- `if repository is None:`
unfoldable pub check_repository : ParsedRepoTarget → Json → Result Json
check_repository target null = raise (not_found target)
check_repository target repository = ok repository

unfoldable pub repository_in : ParsedRepoTarget → Json → Result Json
repository_in target body = and_then (get_or "errors" (arr nil) body) (λ errors.
    and_then (check_errors target errors) (λ passed.
      and_then (get_or "data" empty body)
        (λ data_. and_then (get "repository" data_) (check_repository target))))

unfoldable pub context_in : Pydantic → ℕ → ParsedRepoTarget → Answer → Result RepositoryRawContext
context_in py max_tree_entries target answer =
    and_then (body_of answer)
      (λ body. and_then (repository_in target body) (context_of py target max_tree_entries))

module _ {N : Type 0} (graphql : GraphQl N) (py : Pydantic) (token : String)
    (max_tree_entries : ℕ) where
  unfoldable pub fetch_repository_context : ParsedRepoTarget → Exec N RepositoryRawContext
  fetch_repository_context target =
      if truthy token
      then (do
        answer ← graphql.post query token target.owner target.repo
        lift (context_in py max_tree_entries target answer))
      else throw token_missing

  unfoldable pub github_adapter : GitHubClient N
  github_adapter = record { fetch_repository_context = fetch_repository_context }
