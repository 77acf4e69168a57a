-- ===== src/UrlValidator.antt =====
-- app/research/service/url_validator.py
pub mod Soundness
pub mod RoundTrip
use git_hub_repository_resea.Base.{
  ℕ, String, Bool, true, false, ◌&&◌, ◌||◌, not, List, [], ◌∷◌, ◌==◌, one_of, truthy, if◌then◌else◌,
}
use git_hub_repository_resea.Errors.{Error, simple_problem}
use git_hub_repository_resea.Exec.{Result, ok, raise}
use git_hub_repository_resea.Schema.{ParsedRepoTarget}
use git_hub_repository_resea.Text.{
  Char, ◌<>◌, is_char, is_alpha, is_digit, is_space, strip, split, remove_suffix, all_chars,
}
use git_hub_repository_resea.Urlparse.{HostChecks, ParsedUrl, urlparse}

abbrev invalid_url : String → Error
invalid_url detail =
    simple_problem 400 "/problems/invalid-repository-url" "Invalid repository URL" detail

-- the class of `_OWNER_RE` and `_REPO_RE`
unfoldable pub is_name_char : Char → Bool
unfolding is_alpha is_digit
is_name_char c = is_alpha c || is_digit c || is_char b'_' c || is_char b'.' c || is_char b'-' c

-- `_OWNER_RE.match`: the dollar also stands before a line feed that ends the text.
unfoldable pub name_matches : String → Bool
name_matches s = let body = remove_suffix "\n" s in truthy body && all_chars is_name_char body

abbrev reserved_owners : List String
reserved_owners = "orgs" ∷ "users" ∷ "settings" ∷ "explore" ∷ "features" ∷ []

-- `[segment for segment in … if segment]`
unfoldable pub segments_of : List String → List String
segments_of [] = []
segments_of (s ∷ rest) = let more = segments_of rest in if s == "" then more else s ∷ more

unfoldable pub canonical_url : String → String → String
canonical_url owner repo = "https://github.com/" <> owner <> "/" <> repo

unfoldable pub check_names : String → String → Result ParsedRepoTarget
check_names owner full =
    if one_of owner reserved_owners
    then raise (invalid_url "The supplied URL does not point to a repository root.")
    else (let repo = remove_suffix ".git" full in
        if truthy owner && truthy repo && name_matches owner && name_matches repo
        then ok (record { owner = owner; repo = repo; canonical_url = canonical_url owner repo })
        else raise (invalid_url "The repository owner or name contains unsupported characters."))

unfoldable pub check_segments : List String → Result ParsedRepoTarget
check_segments (owner ∷ repo ∷ []) = check_names owner repo
check_segments _ = raise (
    invalid_url
      "Only root repository URLs are supported. Branch, tree, gist, and profile URLs are not valid inputs.")

unfoldable pub check_parsed : ParsedUrl → Result ParsedRepoTarget
check_parsed u =
    if u.scheme == "https" && (u.netloc == "github.com" || u.netloc == "www.github.com")
    then check_segments (segments_of (split (is_char b'/') (strip (is_char b'/') u.path)))
    else raise
        (invalid_url "Use the canonical repository format https://github.com/{owner}/{repo}.")

abbrev check_result : Result ParsedUrl → Result ParsedRepoTarget
check_result (ok u) = check_parsed u
check_result (raise e) = raise e

unfoldable pub parse_github_repository_url : HostChecks → String → Result ParsedRepoTarget
parse_github_repository_url checks url = check_result (urlparse checks (strip is_space url))
