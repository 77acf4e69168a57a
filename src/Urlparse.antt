-- ===== src/Urlparse.antt =====
-- `urllib.parse.urlparse` as the URL validator uses it: the scheme, the network location and the
-- path of an absolute URL. The library's tables for hosts outside ASCII and for bracketed hosts are
-- parameters, which say whether such a host is refused and with which message.
pub mod Canonical
pub mod Clean
use Prim.Native.String.{[] as nil, ◌∷◌ as ◌∷ᶜ◌}
use git_hub_repository_resea.Base.{
  String, Bool, true, false, ◌&&◌, ◌||◌, not, Option, none, some, List, [], ◌∷◌, leb, one_of,
  is_some, if◌then◌else◌,
}
use git_hub_repository_resea.Errors.{Error, other}
use git_hub_repository_resea.Exec.{Result, ok, raise}
use git_hub_repository_resea.Text.{
  Char, code, ◌<>◌, is_char, is_alpha, is_digit, is_ascii, lower, lower_char, lstrip, rstrip, strip,
  keep, before, after, any_char, all_chars, starts_with,
}

pub record HostChecks : Type 0 where
  pub unsafe_nfkc : String → Option String
  pub bad_bracketed : String → Option String

pub record ParsedUrl : Type 0 where
  pub scheme : String
  pub netloc : String
  pub path : String

is_scheme_char : Char → Bool
is_scheme_char c = is_alpha c || is_digit c || is_char b'+' c || is_char b'-' c || is_char b'.' c

abbrev first_is_alpha : String → Bool
first_is_alpha nil = false
first_is_alpha (c ∷ᶜ s) = is_ascii c && is_alpha c

-- a text that starts with a scheme and a colon
has_scheme : String → Bool
unfolding is_scheme_char
has_scheme url =
    any_char (is_char b':') url
    && first_is_alpha url
    && all_chars is_scheme_char (before (is_char b':') url)

abbrev ends_netloc : Char → Bool
ends_netloc c = is_char b'/' c || is_char b'?' c || is_char b'#' c

abbrev drop_two : String → String
drop_two (c ∷ᶜ (d ∷ᶜ s)) = s
drop_two _ = nil

from_first : (Char → Bool) → String → String
from_first p nil = nil
from_first p (c ∷ᶜ s) = if p c then c ∷ᶜ s else from_first p s

abbrev open_bracket : String → Bool
open_bracket = any_char (is_char b'[')

abbrev close_bracket : String → Bool
close_bracket = any_char (is_char b']')

-- the message of the ValueError that a host raises, if it is refused
host_error : HostChecks → String → Option String
host_error checks netloc =
    if open_bracket netloc && not (close_bracket netloc)
    then some "Invalid IPv6 URL"
    else if close_bracket netloc && not (open_bracket netloc)
    then some "Invalid IPv6 URL"
    else if open_bracket netloc && is_some (checks.bad_bracketed netloc)
    then checks.bad_bracketed netloc
    else if all_chars is_ascii netloc
    then none
    else checks.unsafe_nfkc netloc

-- `uses_params` of the library
abbrev uses_params : List String
uses_params =
    "" ∷ "ftp" ∷ "hdl" ∷ "prospero" ∷ "http" ∷ "https" ∷ "shttp" ∷ "rtsp" ∷ "rtspu" ∷ "sip" ∷ "sips"
    ∷ "mms" ∷ "sftp" ∷ "tel" ∷ []

-- The last segment of the path loses its parameters, from the first semicolon on.
strip_params : String → String
strip_params nil = nil
strip_params (c ∷ᶜ s) =
    let rest = strip_params s in
    if is_char b';' c && not (any_char (is_char b'/') s) then nil else c ∷ᶜ rest

-- The path of what stands behind the network location.
path_of : String → String → String
unfolding strip_params
path_of scheme rest =
    let path = before (is_char b'?') (before (is_char b'#') rest) in
    if one_of scheme uses_params then strip_params path else path

abbrev unless_error : Option String → ParsedUrl → Result ParsedUrl
unless_error none u = ok u
unless_error (some message) u = raise (other message)

-- `url` is what stands behind the scheme and its colon.
split_url : HostChecks → String → String → Result ParsedUrl
unfolding from_first host_error path_of
split_url checks scheme url =
    if starts_with url "//"
    then unless_error (host_error checks (before ends_netloc (drop_two url))) (record {
      scheme = scheme;
      netloc = before ends_netloc (drop_two url);
      path = path_of scheme (from_first ends_netloc (drop_two url));
    })
    else ok (record { scheme = scheme; netloc = ""; path = path_of scheme url })

abbrev is_control_or_space : Char → Bool
is_control_or_space c = leb (code c) 32

abbrev pub is_safe : Char → Bool
is_safe c = not (is_char 9 c || is_char 13 c || is_char 10 c)

unfoldable pub urlparse : HostChecks → String → Result ParsedUrl
unfolding has_scheme split_url
urlparse checks text =
    let url = keep is_safe (lstrip is_control_or_space text) in
    if has_scheme url
    then split_url checks (lower (before (is_char b':') url)) (after (is_char b':') url)
    else split_url checks "" url
