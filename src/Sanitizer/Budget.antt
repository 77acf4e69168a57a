-- ===== src/Sanitizer/Budget.antt =====
-- How long the prompt is, for a header without braces.
use git_hub_repository_resea.Base.{
  ℕ, ◌+◌, ◌-◌, ◌*◌, ◌≤◌, max, min, String, ◌≡◌, ◌⊎◌, refl, ap, ◌∙◌, true, false, ◌&&◌, [], ◌∷◌,
  ◌++◌, ltb, truthy, ◌==◌, eq_iff, arith, Bool-cases, inl, inr,
}
use git_hub_repository_resea.Exec.{ok}
use git_hub_repository_resea.Schema.{LlmPromptPayload, RepositoryRawContext}
use git_hub_repository_resea.Text.{◌<>◌, any_char, size, left}
use git_hub_repository_resea.Text.Laws.{size-<>, size-left}
use git_hub_repository_resea.Format.{plain, format, format_from, scan, finish, brace_free, prepend}
use git_hub_repository_resea.Format.Laws.{format_from-<>}
use git_hub_repository_resea.Sanitizer.{
  OtherFields, Draft, field_value, render, template_of, template_end, truncated, fit_readme,
  fit_tree, draft_prompt, readme_warning, tree_warning, build_prompt_payload, header_of, payload_of,
  readme_text_of, tree_text_of,
}

-- what the template makes of the two texts
abbrev pub filled_end : String → String → String
filled_end readme tree =
    "\nREADME:\n" <> readme <> "\n\nTop-level structure:\n" <> tree <> "\n</repository_content>"

abbrev pub prompt : String → String → String → String
prompt header readme tree = "<repository_content>\n" <> header <> filled_end readme tree

start_free : brace_free "<repository_content>\n" ≡ true
unfolding any_char
start_free = refl

module _ (others : OtherFields) where
  format_template_end :
      (readme tree : String)
      → format_from (field_value others readme tree) plain template_end
        ≡ ok (filled_end readme tree)
  unfolding format_from scan finish field_value ◌<>◌
  format_template_end readme tree = refl

  render-brace_free :
      (header readme tree : String)
      → brace_free header ≡ true
      → render others header readme tree ≡ ok (prompt header readme tree)
  unfolding render format template_of
  render-brace_free header readme tree h =
      let fields = field_value others readme tree in
      format_from-<> fields "<repository_content>\n" (header <> template_end) start_free
      ∙ ap (prepend fields (ok "<repository_content>\n")) (
          format_from-<> fields header template_end h
          ∙ ap (prepend fields (ok header)) (format_template_end readme tree))

size-prompt :
    (header readme tree : String)
    → size (prompt header readme tree) ≡ 75 + size header + size readme + size tree
unfolding size ◌<>◌
size-prompt header readme tree = omega (
  arith,
  size-<> header (filled_end readme tree),
  size-<> readme ("\n\nTop-level structure:\n" <> tree <> "\n</repository_content>"),
  size-<> tree "\n</repository_content>",
)

size-truncated : (n : ℕ) (s : String) → size (left n s <> truncated) ≡ min n (size s) + 15
unfolding size
size-truncated n s = omega (arith, size-<> (left n s) truncated, size-left n s)

truthy-size : (s : String) → truthy s ≡ false → size s ≡ 0
unfolding size
truthy-size s h = elim (Bool-cases (s == "")) [
  | inl same ↦ ap size ((eq_iff s "").0 same)
  | inr other ↦ let h' = rw other at h in cc h'
]

-- the draft is the prompt of its texts
abbrev Drawn : String → Draft → Type 0
Drawn header d = d.text ≡ prompt header d.readme d.tree

module _ (others : OtherFields) (max_chars : ℕ) (header : String)
    (h : brace_free header ≡ true) where
  fit_readme_ok :
      (d : Draft)
      → Drawn header d
      → (d' : Draft) × (fit_readme others max_chars header d ≡ ok d')
        × Drawn header d'
        × (d'.tree ≡ d.tree)
        × ((size d'.text ≤ max_chars) ⊎ (size d'.readme ≤ 271))
  unfolding fit_readme
  fit_readme_ok d drawn = elim (Bool-cases (ltb max_chars (size d.text) && truthy d.readme)) [
    | inl over ↦
        let overflow = size d.text - max_chars in
        let n = max (size d.readme - overflow - 64) 256 in
        let readme = left n d.readme <> truncated in
        let now = size-prompt header readme d.tree in
        let before = ap size drawn ∙ size-prompt header d.readme d.tree in
        let cut = size-truncated n d.readme in
        (
          record {
            readme = readme;
            tree = d.tree;
            text = prompt header readme d.tree;
            warnings = d.warnings ++ readme_warning ∷ [];
          },
          rw over (rw (render-brace_free others header readme d.tree h) refl),
          refl,
          refl,
          ground arith,
        )
    | inr fits ↦ (d, rw fits refl, drawn, refl, ground (arith, truthy-size d.readme))
  ]

  fit_tree_ok :
      (d : Draft)
      → Drawn header d
      → (size d.text ≤ max_chars) ⊎ (size d.readme ≤ 271)
      → (d' : Draft) × (fit_tree others max_chars header d ≡ ok d')
        × Drawn header d'
        × (size d'.text ≤ max max_chars (489 + size header))
  unfolding fit_tree
  fit_tree_ok d drawn fitted = elim (Bool-cases (ltb max_chars (size d.text) && truthy d.tree)) [
    | inl over ↦
        let overflow = size d.text - max_chars in
        let n = max (size d.tree - overflow - 32) 128 in
        let tree = left n d.tree <> truncated in
        let now = size-prompt header d.readme tree in
        let before = ap size drawn ∙ size-prompt header d.readme d.tree in
        let cut = size-truncated n d.tree in
        (
          record {
            readme = d.readme;
            tree = tree;
            text = prompt header d.readme tree;
            warnings = d.warnings ++ tree_warning ∷ [];
          },
          rw over (rw (render-brace_free others header d.readme tree h) refl),
          refl,
          ground arith,
        )
    | inr fits ↦
        let before = ap size drawn ∙ size-prompt header d.readme d.tree in
        (d, rw fits refl, drawn, ground (arith, truthy-size d.tree))
  ]

  draft_prompt_lem :
      (readme tree : String)
      → (d : Draft) × (draft_prompt others max_chars header readme tree ≡ ok d)
        × (d.text ≡ prompt header d.readme d.tree)
        × (size d.text ≤ max max_chars (489 + size header))
  unfolding draft_prompt
  draft_prompt_lem readme tree =
      let first : Draft = record {
        readme = readme;
        tree = tree;
        text = prompt header readme tree;
        warnings = [];
      } in
      let (d, read, drawn, _, fitted) = fit_readme_ok first refl in
      let (d', treed, drawn', short) = fit_tree_ok d drawn fitted in
      (d', rw (render-brace_free others header readme tree h) (rw read treed), drawn', short)

-- For a repository whose header has no brace the prompt is always built, whatever the README and the
-- tree are, and it is at most as long as the budget of four characters a token, or, where the budget
-- is smaller than that, as the header and 489 characters.
pub build_prompt_payload_lem :
    (others : OtherFields) (max_context_tokens : ℕ) (raw : RepositoryRawContext)
    → brace_free (header_of raw) ≡ true
    → (payload : LlmPromptPayload) × (build_prompt_payload others max_context_tokens raw
        ≡ ok payload)
      × (size payload.prompt_text ≤ max (max_context_tokens * 4) (489 + size (header_of raw)))
unfolding build_prompt_payload
build_prompt_payload_lem others max_context_tokens raw h =
    let (d, drawn, _, short) =
      draft_prompt_lem others (max_context_tokens * 4) (header_of raw) h
        (readme_text_of raw.readme_text) (tree_text_of raw.tree_entries) in
    (payload_of others raw d, rw drawn refl, short)
