-- ===== src/Tests/Urls.antt =====
-- The URL validator's properties at concrete URLs.
use git_hub_repository_resea.Base.{◌≡◌, ◌≢◌, refl, true, false}
use git_hub_repository_resea.Exec.{ok}
use git_hub_repository_resea.Schema.{ParsedRepoTarget}
use git_hub_repository_resea.Text.{
  ends_with, strip, lstrip, rstrip, keep, before, after, all_chars, any_char, starts_with, lower,
  is_space, lower_char, is_alpha, is_digit, is_ascii, split, remove_suffix, ◌<>◌,
}
use git_hub_repository_resea.Urlparse.{urlparse}
use git_hub_repository_resea.UrlValidator.{
  parse_github_repository_url, canonical_url, check_names, check_parsed, check_segments,
  segments_of, name_matches, is_name_char,
}
use git_hub_repository_resea.UrlValidator.Soundness.{IsTarget, parse_github_repository_url-IsTarget}
use git_hub_repository_resea.UrlValidator.RoundTrip.{
  parse-canonical_url_target, parse-canonical_url_git,
}
use git_hub_repository_resea.Tests.Fixtures.{any_host}

abbrev black : ParsedRepoTarget
black = record { owner = "psf"; repo = "black"; canonical_url = "https://github.com/psf/black" }

abbrev twice_git : ParsedRepoTarget
twice_git = record {
  owner = "psf";
  repo = "black.git";
  canonical_url = "https://github.com/psf/black.git";
}

black_parses :
    parse_github_repository_url any_host " https://www.github.com/psf/black.git/ " ≡ ok black
unfolding parse_github_repository_url urlparse strip lstrip rstrip keep before after all_chars
    any_char starts_with lower lower_char is_alpha is_digit is_ascii split remove_suffix ◌<>◌
    check_parsed check_segments segments_of check_names name_matches is_name_char canonical_url
    is_space
black_parses = refl

twice_git_parses :
    parse_github_repository_url any_host "https://github.com/psf/black.git.git" ≡ ok twice_git
unfolding parse_github_repository_url urlparse strip lstrip rstrip keep before after all_chars
    any_char starts_with lower lower_char is_alpha is_digit is_ascii split remove_suffix ◌<>◌
    check_parsed check_segments segments_of check_names name_matches is_name_char canonical_url
    is_space
twice_git_parses = refl

no_git : ends_with "black" ".git" ≡ false
unfolding ends_with
no_git = refl

still_git : ends_with "black.git" ".git" ≡ true
unfolding ends_with
still_git = refl

parse_github_repository_url-IsTarget_example : IsTarget black
parse_github_repository_url-IsTarget_example =
    parse_github_repository_url-IsTarget any_host " https://www.github.com/psf/black.git/ "
      black_parses

parse-canonical_url_target_example :
    parse_github_repository_url any_host "https://github.com/psf/black" ≡ ok black
parse-canonical_url_target_example =
    parse-canonical_url_target any_host " https://www.github.com/psf/black.git/ " black black_parses
      no_git

parse-canonical_url_git_example :
    parse_github_repository_url any_host "https://github.com/psf/black.git" ≢ ok twice_git
parse-canonical_url_git_example =
    parse-canonical_url_git any_host "https://github.com/psf/black.git.git" twice_git
      twice_git_parses still_git
