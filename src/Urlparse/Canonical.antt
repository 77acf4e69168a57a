-- ===== src/Urlparse/Canonical.antt =====
-- What `urlparse` makes of a canonical repository URL.
use Prim.Native.String.{[] as nil, ◌∷◌ as ◌∷ᶜ◌}
use git_hub_repository_resea.Base.{String, ◌≡◌, refl, Bool, true, not, ◌&&◌, arith}
use git_hub_repository_resea.Exec.{ok}
use git_hub_repository_resea.Text.{
  Char, ◌<>◌, is_char, is_alpha, is_digit, is_ascii, lower, lower_char, lstrip, keep, before, after,
  any_char, all_chars, starts_with,
}
use git_hub_repository_resea.Text.Preserve.{none_of, keep_all, before_none, all_chars_mono}
use git_hub_repository_resea.Urlparse.{HostChecks, strip_params, path_of, is_safe, urlparse}

-- the characters of a path that `urlparse` leaves alone
abbrev pub is_plain : Char → Bool
is_plain c = is_safe c && not (is_char b'?' c) && not (is_char b'#' c) && not (is_char b';' c)

strip_params_none : (s : String) → none_of (is_char b';') s ≡ true → strip_params s ≡ s
unfolding strip_params all_chars
strip_params_none nil h = refl
strip_params_none (c ∷ᶜ s) h = ground (arith, strip_params_none s)

module _ (path : String) (plain : all_chars is_plain path ≡ true) where
  no_query : none_of (is_char b'?') path ≡ true
  no_query = all_chars_mono is_plain _ path (λ c h. ground arith) plain

  no_fragment : none_of (is_char b'#') path ≡ true
  no_fragment = all_chars_mono is_plain _ path (λ c h. ground arith) plain

  no_params : none_of (is_char b';') path ≡ true
  no_params = all_chars_mono is_plain _ path (λ c h. ground arith) plain

  all_safe : all_chars is_safe path ≡ true
  all_safe = all_chars_mono is_plain _ path (λ c h. ground arith) plain

  path_of-https : path_of "https" path ≡ path
  unfolding path_of
  path_of-https =
      rw (before_none _ path no_fragment, before_none _ path no_query)
        (strip_params_none path no_params)

  keep_safe : keep is_safe ("https://github.com/" <> path) ≡ "https://github.com/" <> path
  unfolding keep ◌<>◌
  keep_safe = rw (keep_all is_safe path all_safe) refl

-- On a canonical URL whose path is plain, `urlparse` gives the three parts, whatever the library's
-- checks of hosts say.
pub urlparse-https :
    (hosts : HostChecks) (path : String)
    → all_chars is_plain path ≡ true
    → urlparse hosts ("https://github.com/" <> path)
      ≡ ok (record { scheme = "https"; netloc = "github.com"; path = "/" <> path })
unfolding urlparse lstrip before after all_chars any_char lower lower_char starts_with is_alpha
    is_digit is_ascii ◌<>◌
urlparse-https hosts path plain =
    let slash : all_chars is_plain ("/" <> path) ≡ true = plain in
    rw (keep_safe path plain) (rw (path_of-https ("/" <> path) slash) refl)
