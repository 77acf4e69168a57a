-- ===== src/UrlValidator/RoundTrip.antt =====
-- Parsing a canonical URL again, as the worker does with the URL of its message.
use Prim.Native.String.{[] as nil, ◌∷◌ as ◌∷ᶜ◌}
use git_hub_repository_resea.Base.{
  ◌<◌, String, ◌≡◌, ◌≢◌, refl, ap, sym, ◌∙◌, true, false, not, [], ◌∷◌, ◌==◌, eq_iff, one_of, arith,
  Bool-cases, inl, inr,
}
use git_hub_repository_resea.Exec.{ok}
use git_hub_repository_resea.Schema.{ParsedRepoTarget}
use git_hub_repository_resea.Text.{
  Char, ◌<>◌, size, is_char, is_space, all_chars, lstrip, rstrip, strip, split, remove_suffix,
  ends_with,
}
use git_hub_repository_resea.Text.Laws.{all_chars-<>, <>_assoc}
use git_hub_repository_resea.Text.Preserve.{
  none_of, all_chars_mono, rstrip-<>, split-<>, split_none,
}
use git_hub_repository_resea.Urlparse.{HostChecks, is_safe}
use git_hub_repository_resea.Urlparse.Clean.{Clean}
use git_hub_repository_resea.Urlparse.Canonical.{is_plain, urlparse-https}
use git_hub_repository_resea.UrlValidator.{
  is_name_char, name_matches, reserved_owners, segments_of, canonical_url, check_names,
  check_segments, check_parsed, parse_github_repository_url,
}
use git_hub_repository_resea.UrlValidator.Soundness.{
  IsName, remove_suffix_newline, parse_github_repository_url-IsTarget,
}

-- What a name's characters are not.
module _ (c : Char) (h : is_name_char c ≡ true) where
  no_space : not (is_space c) ≡ true
  unfolding is_name_char is_space
  no_space = ground arith

  no_slash : not (is_char b'/' c) ≡ true
  unfolding is_name_char
  no_slash = ground arith

  plain : is_plain c ≡ true
  unfolding is_name_char
  plain = ground arith

  safe : is_safe c ≡ true
  unfolding is_name_char
  safe = ground arith

-- owner/repo, as the path of a URL has it
module _ (owner repo : String) (io : IsName owner) (ir : IsName repo) where
  path_plain : all_chars is_plain (owner <> "/" <> repo) ≡ true
  path_plain = rw (all_chars-<> is_plain owner ("/" <> repo)) (
      ground (
        arith,
        all_chars_mono is_name_char is_plain owner plain io.1,
        slash_plain (all_chars_mono is_name_char is_plain repo plain ir.1),
      ))
    where
      slash_plain : all_chars is_plain repo ≡ true → all_chars is_plain ("/" <> repo) ≡ true
      slash_plain h = unfold all_chars ◌<>◌ in h

  owner_no_slash : none_of (is_char b'/') owner ≡ true
  owner_no_slash = all_chars_mono is_name_char _ owner no_slash io.1

  repo_no_slash : none_of (is_char b'/') repo ≡ true
  repo_no_slash = all_chars_mono is_name_char _ repo no_slash ir.1

  repo_not_empty : repo ≢ ""
  repo_not_empty e = ground (arith, eq_iff repo "")

  owner_not_empty : owner ≢ ""
  owner_not_empty e = ground (arith, eq_iff owner "")

  lstrip_path :
      (o : String)
      → o ≢ ""
      → none_of (is_char b'/') o ≡ true
      → lstrip (is_char b'/') (o <> "/" <> repo) ≡ o <> "/" <> repo
  unfolding lstrip all_chars ◌<>◌
  lstrip_path nil ne h = absurd (ne refl)
  lstrip_path (c ∷ᶜ s) ne h = ground arith

  strip_path : strip (is_char b'/') ("/" <> owner <> "/" <> repo) ≡ owner <> "/" <> repo
  unfolding strip
  strip_path =
      let first : lstrip (is_char b'/') ("/" <> owner <> "/" <> repo) ≡ owner <> "/" <> repo =
        unfold_slash (lstrip_path owner owner_not_empty owner_no_slash) in
      rw first (
        rw (sym (<>_assoc owner "/" repo))
          (rstrip-<> (is_char b'/') (owner <> "/") repo repo_not_empty repo_no_slash))
    where
      unfold_slash :
          lstrip (is_char b'/') (owner <> "/" <> repo) ≡ owner <> "/" <> repo
          → lstrip (is_char b'/') ("/" <> owner <> "/" <> repo) ≡ owner <> "/" <> repo
      unfold_slash h = unfold lstrip ◌<>◌ in h

  split_path : split (is_char b'/') (owner <> "/" <> repo) ≡ owner ∷ repo ∷ []
  unfolding ◌<>◌
  split_path =
      split-<> (is_char b'/') owner "/" repo owner_no_slash refl
      ∙ ap (λ l. owner ∷ l) (split_none (is_char b'/') repo repo_no_slash)

  strip_url : strip is_space (canonical_url owner repo) ≡ canonical_url owner repo
  unfolding strip canonical_url
  strip_url = with_prefix (
      rstrip-<> is_space ("https://github.com/" <> owner <> "/") repo repo_not_empty
        (all_chars_mono is_name_char _ repo no_space ir.1))
    where
      no_leading_space :
          rstrip is_space ("https://github.com/" <> owner <> "/" <> repo)
            ≡ "https://github.com/" <> owner <> "/" <> repo
          → rstrip is_space (lstrip is_space ("https://github.com/" <> owner <> "/" <> repo))
            ≡ "https://github.com/" <> owner <> "/" <> repo
      no_leading_space h = unfold lstrip is_space ◌<>◌ in h

      with_prefix :
          rstrip is_space (("https://github.com/" <> owner <> "/") <> repo)
            ≡ ("https://github.com/" <> owner <> "/") <> repo
          → rstrip is_space (lstrip is_space ("https://github.com/" <> owner <> "/" <> repo))
            ≡ "https://github.com/" <> owner <> "/" <> repo
      with_prefix h =
          let same : ("https://github.com/" <> owner <> "/") <> repo
              ≡ "https://github.com/" <> owner <> "/" <> repo =
            <>_assoc "https://github.com/" (owner <> "/") repo
            ∙ ap (λ t. "https://github.com/" <> t) (<>_assoc owner "/" repo) in
          no_leading_space (rw same at h)

  check_path :
      check_parsed
        (record { scheme = "https"; netloc = "github.com"; path = "/" <> owner <> "/" <> repo })
      ≡ check_names owner repo
  unfolding check_parsed segments_of check_segments
  check_path = rw strip_path (rw split_path (ground (arith, eq_iff owner "", eq_iff repo "")))

  -- The canonical URL of two names is parsed back into the two, and they are checked again.
  parse-canonical_url :
      (hosts : HostChecks)
      → parse_github_repository_url hosts (canonical_url owner repo) ≡ check_names owner repo
  unfolding parse_github_repository_url canonical_url
  parse-canonical_url hosts =
      rw strip_url (rw (urlparse-https hosts (owner <> "/" <> repo) path_plain) check_path)

remove_suffix_id : (t s : String) → ends_with s t ≡ false → remove_suffix t s ≡ s
unfolding remove_suffix ends_with
remove_suffix_id t nil h = refl
remove_suffix_id t (c ∷ᶜ s) h = ground (arith, remove_suffix_id t s)

check_names_ok :
    (owner repo : String)
    → IsName owner
    → IsName repo
    → one_of owner reserved_owners ≡ false
    → ends_with repo ".git" ≡ false
    → check_names owner repo
      ≡ ok (record { owner = owner; repo = repo; canonical_url = canonical_url owner repo })
unfolding check_names name_matches
check_names_ok owner repo io ir free no_git =
    let safe_owner : Clean owner = all_chars_mono is_name_char is_safe owner safe io.1 in
    let safe_repo : Clean repo = all_chars_mono is_name_char is_safe repo safe ir.1 in
    rw free (
      rw (remove_suffix_id ".git" repo no_git) (
        rw (remove_suffix_newline owner safe_owner)
          (rw (remove_suffix_newline repo safe_repo) (ground arith))))

-- The canonical URL of an accepted target whose repository does not end in `.git` is accepted
-- again, and gives the same target: the worker, which parses the URL of its message anew, analyses
-- the repository that was submitted.
pub parse-canonical_url_target :
    (hosts : HostChecks) (url : String) (t : ParsedRepoTarget)
    → parse_github_repository_url hosts url ≡ ok t
    → ends_with t.repo ".git" ≡ false
    → parse_github_repository_url hosts t.canonical_url ≡ ok t
parse-canonical_url_target hosts url t accepted no_git =
    let h = parse_github_repository_url-IsTarget hosts url accepted in
    rw h.url (
      parse-canonical_url t.owner t.repo h.owner h.repo hosts
      ∙ check_names_ok t.owner t.repo h.owner h.repo h.not_reserved no_git
      ∙ ground arith)

size-remove_suffix :
    (s : String) → ends_with s ".git" ≡ true → size (remove_suffix ".git" s) < size s
unfolding remove_suffix ends_with size
size-remove_suffix nil h = cc h
size-remove_suffix (c ∷ᶜ s) h = elim (Bool-cases ((c ∷ᶜ s) == ".git")) [
  | inl same ↦ rw same (omega arith)
  | inr other ↦ rw other (ground (arith, size-remove_suffix s))
]

repo-check_names :
    (owner repo : String) (t : ParsedRepoTarget)
    → check_names owner repo ≡ ok t
    → t.repo ≡ remove_suffix ".git" repo
unfolding check_names
repo-check_names owner repo t e = ground arith

-- Where the repository of an accepted target still ends in `.git`, the canonical URL does not parse
-- back to the target: only one suffix is removed at a time.
pub parse-canonical_url_git :
    (hosts : HostChecks) (url : String) (t : ParsedRepoTarget)
    → parse_github_repository_url hosts url ≡ ok t
    → ends_with t.repo ".git" ≡ true
    → parse_github_repository_url hosts t.canonical_url ≢ ok t
parse-canonical_url_git hosts url t accepted git again =
    let h = parse_github_repository_url-IsTarget hosts url accepted in
    let checked : check_names t.owner t.repo ≡ ok t =
      sym (parse-canonical_url t.owner t.repo h.owner h.repo hosts) ∙ rw (← h.url) again in
    let shorter = size-remove_suffix t.repo git in
    let same = ap size (repo-check_names t.owner t.repo t checked) in absurd (omega arith)
