-- ===== src/Urlparse/Clean.antt =====
-- No part of a parsed URL holds a tab or a line break: `urlparse` has removed them.
use Prim.Native.String.{[] as nil, ◌∷◌ as ◌∷ᶜ◌}
use git_hub_repository_resea.Base.{
  String, ◌≡◌, refl, Bool, true, false, ◌&&◌, not, Option, none, some, arith, Bool-cases, inl, inr,
  one_of, if◌then◌else◌,
}
use git_hub_repository_resea.Exec.{ok}
use git_hub_repository_resea.Text.{
  Char, all_chars, any_char, is_char, keep, lstrip, before, starts_with, lower,
}
use git_hub_repository_resea.Text.Preserve.{all_chars-keep, all_chars-before, all_chars-after}
use git_hub_repository_resea.Urlparse.{
  HostChecks, ParsedUrl, has_scheme, from_first, host_error, strip_params, path_of, split_url,
  is_safe, is_control_or_space, ends_netloc, drop_two, unless_error, uses_params, urlparse,
}

abbrev pub Clean : String → Type 0
Clean s = all_chars is_safe s ≡ true

strip_params-Clean : (s : String) → Clean s → Clean (strip_params s)
unfolding strip_params all_chars
strip_params-Clean nil h = refl
strip_params-Clean (c ∷ᶜ s) h =
    elim (Bool-cases (is_char b';' c && not (any_char (is_char b'/') s))) [
      | inl cut ↦ rw cut refl
      | inr other ↦ rw other (ground (arith, strip_params-Clean s))
    ]

from_first-Clean : (p : Char → Bool) (s : String) → Clean s → Clean (from_first p s)
unfolding from_first all_chars
from_first-Clean p nil h = refl
from_first-Clean p (c ∷ᶜ s) h = ground (arith, from_first-Clean p s)

drop_two-Clean : (s : String) → Clean s → Clean (drop_two s)
unfolding all_chars
drop_two-Clean nil h = refl
drop_two-Clean (c ∷ᶜ nil) h = refl
drop_two-Clean (c ∷ᶜ (d ∷ᶜ s)) h = ground arith

path_of-Clean : (scheme rest : String) → Clean rest → Clean (path_of scheme rest)
unfolding path_of
path_of-Clean scheme rest h =
    let path = before (is_char b'?') (before (is_char b'#') rest) in
    let clean : Clean path =
      all_chars-before (is_char b'?') is_safe _ (all_chars-before (is_char b'#') is_safe rest h) in
    if_either (one_of scheme uses_params) _ _ (strip_params-Clean path clean) clean
  where
    if_either : (b : Bool) (s t : String) → Clean s → Clean t → Clean (if b then s else t)
    if_either true s t h k = h
    if_either false s t h k = k

unless_error-Clean :
    (o : Option String) (u u' : ParsedUrl) → Clean u.path → unless_error o u ≡ ok u' → Clean u'.path
unless_error-Clean none u u' h e = ground arith
unless_error-Clean (some message) u u' h e = cc

split_url-Clean :
    (hosts : HostChecks) (scheme url : String) (u : ParsedUrl)
    → Clean url
    → split_url hosts scheme url ≡ ok u
    → Clean u.path
unfolding split_url
split_url-Clean hosts scheme url u h e = elim (Bool-cases (starts_with url "//")) [
  | inl net ↦
      unless_error-Clean (host_error hosts (before ends_netloc (drop_two url))) _ u
        (path_of-Clean scheme _ (from_first-Clean ends_netloc _ (drop_two-Clean url h)))
        (rw net at e)
  | inr no_net ↦ unless_error-Clean none _ u (path_of-Clean scheme url h) (rw no_net at e)
]

pub urlparse-Clean :
    (hosts : HostChecks) (text : String) (u : ParsedUrl) → urlparse hosts text ≡ ok u → Clean u.path
unfolding urlparse
urlparse-Clean hosts text u e =
    let url = keep is_safe (lstrip is_control_or_space text) in
    let clean : Clean url = all_chars-keep is_safe (lstrip is_control_or_space text) in
    elim (Bool-cases (has_scheme url)) [
      | inl with_scheme ↦
          split_url-Clean hosts (lower (before (is_char b':') url)) _ u
            (all_chars-after (is_char b':') is_safe url clean) (rw with_scheme at e)
      | inr no_scheme ↦ split_url-Clean hosts "" url u clean (rw no_scheme at e)
    ]
