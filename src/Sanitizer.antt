-- ===== src/Sanitizer.antt =====
-- app/research/service/context_sanitizer.py
mod Redact
pub mod Budget
unfoldable pub use Redact.{sanitize_text}
use git_hub_repository_resea.Base.{
  ℕ, ◌-◌, ◌*◌, max, String, Bool, true, false, ◌&&◌, ◌||◌, Option, none, some, List, [], ◌∷◌, ◌++◌,
  map, ltb, one_of, truthy, or_text, ◌==◌, if◌then◌else◌,
}
use git_hub_repository_resea.Exec.{Result, ok, and_then}
use git_hub_repository_resea.Schema.{
  LlmPromptPayload, PartialAnalysisWarning, RepositoryRawContext, RepositoryTreeEntry,
}
use git_hub_repository_resea.Text.{◌<>◌, size, left, strip, is_space, lower, ends_with, join, show}
use git_hub_repository_resea.Format.{format}

abbrev blocked_path_parts : List String
blocked_path_parts = ".git" ∷ "node_modules" ∷ "__pycache__" ∷ ".venv" ∷ "venv" ∷ []

abbrev blocked_suffixes : List String
blocked_suffixes =
    ".png" ∷ ".jpg" ∷ ".jpeg" ∷ ".gif" ∷ ".webp" ∷ ".svg" ∷ ".ico" ∷ ".pdf" ∷ ".zip" ∷ ".tar"
    ∷ ".gz" ∷ ".exe" ∷ ".bin" ∷ ".woff" ∷ ".woff2" ∷ ".ttf" ∷ []

-- `any(s.endswith(suffix) for suffix in …)`
ends_with_any : String → List String → Bool
ends_with_any s [] = false
ends_with_any s (t ∷ ts) = ends_with s t || ends_with_any s ts

unfoldable pub is_blocked : String → Bool
unfolding ends_with_any lower ends_with
is_blocked name =
    let lower_name = lower name in
    one_of lower_name blocked_path_parts || ends_with_any lower_name blocked_suffixes

filter_entries : List RepositoryTreeEntry → List RepositoryTreeEntry
filter_entries [] = []
filter_entries (entry ∷ entries) =
    let rest = filter_entries entries in if is_blocked entry.name then rest else entry ∷ rest

abbrev entry_line : RepositoryTreeEntry → String
entry_line entry = "- " <> entry.name <> " (" <> entry.type <> ")"

unfoldable pub tree_text_of : List RepositoryTreeEntry → String
unfolding filter_entries is_blocked join ◌<>◌
tree_text_of entries = join "\n" (map entry_line (filter_entries entries))

unfoldable pub readme_text_of : Option String → String
unfolding sanitize_text strip
readme_text_of none = sanitize_text (strip is_space "")
readme_text_of (some readme) = sanitize_text (strip is_space readme)

unfoldable pub header_of : RepositoryRawContext → String
unfolding ◌<>◌ show
header_of raw =
    "Repository URL: "
    <> raw.repository_url
    <> "\nDefault branch: "
    <> raw.default_branch
    <> "\nCommit SHA: "
    <> raw.commit_sha
    <> "\nStars: "
    <> show raw.instant_data.stars
    <> "\nForks: "
    <> show raw.instant_data.forks
    <> "\nPrimary language: "
    <> or_text raw.instant_data.primary_lang "Unknown"
    <> "\n"

abbrev pub template_end : String
template_end = "\nREADME:\n{readme}\n\nTop-level structure:\n{tree}\n</repository_content>"

unfoldable pub template_of : String → String
unfolding ◌<>◌
template_of header = "<repository_content>\n" <> header <> template_end

-- Fields of a template that are neither `readme` nor `tree`: what `str.format` makes of them, from
-- the field's text and the two values. The library raises a KeyError for any other name.
abbrev pub OtherFields : Type 0
OtherFields = String → String → String → Result String

abbrev pub truncated : String
truncated = "\n...[truncated]"

abbrev pub readme_warning : PartialAnalysisWarning
readme_warning = record {
  stage = "context_sanitizer";
  message = "README content was truncated to stay within the AI context budget.";
}

abbrev pub tree_warning : PartialAnalysisWarning
tree_warning = record {
  stage = "context_sanitizer";
  message = "Repository structure was truncated to stay within the AI context budget.";
}

-- The variables that the two truncations update.
pub record Draft : Type 0 where
  pub readme : String
  pub tree : String
  pub text : String
  pub warnings : List PartialAnalysisWarning

module _ (others : OtherFields) where
  unfoldable pub field_value : String → String → String → Result String
  field_value readme tree name =
      if name == "readme"
      then ok readme
      else if name == "tree"
      then ok tree
      else others name readme tree

  -- `template.format(readme=…, tree=…)`
  unfoldable pub render : String → String → String → Result String
  unfolding field_value format template_of
  render header readme tree = format (field_value readme tree) (template_of header)

  unfoldable pub fit_readme : ℕ → String → Draft → Result Draft
  fit_readme max_chars header d =
      if ltb max_chars (size d.text) && truthy d.readme
      then (let overflow = size d.text - max_chars in
          let readme = left (max (size d.readme - overflow - 64) 256) d.readme <> truncated in
          and_then (render header readme d.tree) (λ text. ok (record {
            readme = readme;
            tree = d.tree;
            text = text;
            warnings = d.warnings ++ readme_warning ∷ [];
          })))
      else ok d

  unfoldable pub fit_tree : ℕ → String → Draft → Result Draft
  fit_tree max_chars header d =
      if ltb max_chars (size d.text) && truthy d.tree
      then (let overflow = size d.text - max_chars in
          let tree = left (max (size d.tree - overflow - 32) 128) d.tree <> truncated in
          and_then (render header d.readme tree) (λ text. ok (record {
            readme = d.readme;
            tree = tree;
            text = text;
            warnings = d.warnings ++ tree_warning ∷ [];
          })))
      else ok d

  -- The prompt, with the truncations applied in order.
  unfoldable pub draft_prompt : ℕ → String → String → String → Result Draft
  draft_prompt max_chars header readme tree = and_then (render header readme tree) (λ text.
      and_then
        (fit_readme max_chars header
          (record { readme = readme; tree = tree; text = text; warnings = [] }))
        (fit_tree max_chars header))

  abbrev pub payload_of : RepositoryRawContext → Draft → LlmPromptPayload
  payload_of raw d = record {
    repository_url = raw.repository_url;
    cache_key = raw.target.owner <> "/" <> raw.target.repo <> "@" <> raw.commit_sha;
    commit_sha = raw.commit_sha;
    deterministic_data = raw.instant_data;
    prompt_text = d.text;
    warnings = d.warnings;
  }

  unfoldable pub build_prompt_payload : ℕ → RepositoryRawContext → Result LlmPromptPayload
  unfolding draft_prompt fit_readme fit_tree render tree_text_of readme_text_of header_of
  build_prompt_payload max_context_tokens raw =
      and_then
        (draft_prompt (max_context_tokens * 4) (header_of raw) (readme_text_of raw.readme_text)
          (tree_text_of raw.tree_entries))
        (λ d. ok (payload_of raw d))
