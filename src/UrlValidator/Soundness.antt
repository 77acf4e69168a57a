-- ===== src/UrlValidator/Soundness.antt =====
-- What `parse_github_repository_url` accepts.
use Prim.Native.String.{[] as nil, ◌∷◌ as ◌∷ᶜ◌}
use git_hub_repository_resea.Base.{
  String, ◌≡◌, refl, ap, subst, true, false, ◌&&◌, ◌||◌, List, [], ◌∷◌, ◌==◌, eq_iff, one_of,
  truthy, arith, Bool-cases, inl, inr,
}
use git_hub_repository_resea.Exec.{Result, ok, raise}
use git_hub_repository_resea.Schema.{ParsedRepoTarget}
use git_hub_repository_resea.Text.{is_char, is_space, all_chars, strip, split, remove_suffix}
use git_hub_repository_resea.Text.Preserve.{
  AllText, all_chars-strip, all_chars-split, all_chars-remove_suffix,
}
use git_hub_repository_resea.Urlparse.{HostChecks, ParsedUrl, urlparse, is_safe}
use git_hub_repository_resea.Urlparse.Clean.{Clean, urlparse-Clean}
use git_hub_repository_resea.UrlValidator.{
  is_name_char, name_matches, reserved_owners, segments_of, canonical_url, check_names,
  check_segments, check_parsed, check_result, parse_github_repository_url,
}

-- the name of an owner or a repository: not empty, and of the allowed characters only
abbrev pub IsName : String → Type 0
IsName s = (truthy s ≡ true) × (all_chars is_name_char s ≡ true)

-- Without a line break at the end the pattern says just that.
pub remove_suffix_newline : (s : String) → Clean s → remove_suffix "\n" s ≡ s
unfolding remove_suffix all_chars
remove_suffix_newline nil h = refl
remove_suffix_newline (c ∷ᶜ s) h = elim (Bool-cases ((c ∷ᶜ s) == "\n")) [
  | inl same ↦ absurd (not_clean (subst Clean ((eq_iff _ _).0 same) h))
  | inr other ↦ rw other (ap (λ t. c ∷ᶜ t) (remove_suffix_newline s (ground arith)))
]
  where
    not_clean : Clean "\n" → ⊥
    not_clean e = cc e

name_matches-IsName : (s : String) → Clean s → name_matches s ≡ true → IsName s
unfolding name_matches
name_matches-IsName s clean h =
    let m : truthy s && all_chars is_name_char s ≡ true = rw (remove_suffix_newline s clean) at h in
    ground arith

-- an accepted target: two names, an owner that is no page of the site, and the canonical URL
pub record IsTarget (t : ParsedRepoTarget) : Type 0 where
  pub owner : IsName t.owner
  pub repo : IsName t.repo
  pub not_reserved : one_of t.owner reserved_owners ≡ false
  pub url : t.canonical_url ≡ canonical_url t.owner t.repo

check_names-IsTarget :
    (owner repo : String) {t : ParsedRepoTarget}
    → Clean owner
    → Clean repo
    → check_names owner repo ≡ ok t
    → IsTarget t
unfolding check_names
check_names-IsTarget owner full {t} co cr e =
    let repo = remove_suffix ".git" full in
    let cr' : Clean repo = all_chars-remove_suffix is_safe is_safe ".git" full cr in
    record {
      owner = ground (arith, name_matches-IsName owner co);
      repo = ground (arith, name_matches-IsName repo cr');
      not_reserved = ground arith;
      url = ground arith;
    }

segments_of-Clean :
    (l : List String) → AllText is_safe is_safe l → AllText is_safe is_safe (segments_of l)
unfolding segments_of
segments_of-Clean [] h = tt
segments_of-Clean (s ∷ l) h = elim (Bool-cases (s == "")) [
  | inl blank ↦ rw blank (segments_of-Clean l h.1)
  | inr other ↦ rw other (h.0, segments_of-Clean l h.1)
]

check_segments-IsTarget :
    (l : List String) {t : ParsedRepoTarget}
    → AllText is_safe is_safe l
    → check_segments l ≡ ok t
    → IsTarget t
unfolding check_segments
check_segments-IsTarget [] h e = cc
check_segments-IsTarget (a ∷ []) h e = cc
check_segments-IsTarget (a ∷ b ∷ []) h e = check_names-IsTarget a b h.0 h.1.0 e
check_segments-IsTarget (a ∷ b ∷ c ∷ l) h e = cc

check_parsed-IsTarget :
    (u : ParsedUrl) {t : ParsedRepoTarget} → Clean u.path → check_parsed u ≡ ok t → IsTarget t
unfolding check_parsed
check_parsed-IsTarget u clean e =
    let host = u.scheme == "https" && (u.netloc == "github.com" || u.netloc == "www.github.com") in
    let parts = split (is_char b'/') (strip (is_char b'/') u.path) in
    let clean' : AllText is_safe is_safe parts =
      all_chars-split (is_char b'/') is_safe _
        (all_chars-strip (is_char b'/') is_safe u.path clean) in
    elim (Bool-cases host) [
      | inl here ↦
          check_segments-IsTarget (segments_of parts) (segments_of-Clean parts clean')
            (rw here at e)
      | inr elsewhere ↦ let e' = rw elsewhere at e in cc e'
    ]

-- Every URL that is accepted gives an owner and a repository that are not empty and have only
-- letters, digits, underscores, dots and dashes, an owner that is none of the reserved pages, and
-- the canonical URL of the two.
pub parse_github_repository_url-IsTarget :
    (hosts : HostChecks) (url : String) {t : ParsedRepoTarget}
    → parse_github_repository_url hosts url ≡ ok t
    → IsTarget t
unfolding parse_github_repository_url
parse_github_repository_url-IsTarget hosts url {t} e =
    from_parsed (urlparse hosts (strip is_space url)) (urlparse-Clean hosts (strip is_space url)) e
  where
    from_parsed :
        (r : Result ParsedUrl)
        → ((u : ParsedUrl) → r ≡ ok u → Clean u.path)
        → check_result r ≡ ok t
        → IsTarget t
    from_parsed (ok u) clean e = check_parsed-IsTarget u (clean u refl) e
    from_parsed (raise x) clean e = cc e
