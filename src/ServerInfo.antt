-- ===== src/ServerInfo.antt =====
-- utils/server_info.py and utils/redis_info.py: durations as text, and the values of Redis' INFO.
-- What psutil and Redis report is an argument; sizes in bytes, which are formatted by floating point,
-- are left out.
pub mod Seconds
use git_hub_repository_resea.Base.{
  ℕ, zero, suc, ◌+◌, ◌-◌, ◌*◌, ◌/◌, ◌%◌, String, Bool, Option, none, some, List, [], ◌∷◌, ◌++◌,
  ◌==◌, map, nat_eq, if◌then◌else◌,
}
use git_hub_repository_resea.Errors.{other}
use git_hub_repository_resea.Exec.{Result, ok, raise, and_then}
use git_hub_repository_resea.Text.{◌<>◌, is_char, join, show, split}
use git_hub_repository_resea.Text.Numbers.{ℤ, pos, negsuc, int, show_int}

-- the three divmods, which round down
pub record Duration : Type 0 where
  pub days : ℤ
  pub hours : ℕ
  pub minutes : ℕ
  pub seconds : ℕ

abbrev within_day : ℤ → ℕ → Duration
within_day days rem = record {
  days = days;
  hours = rem / 3600;
  minutes = rem % 3600 / 60;
  seconds = rem % 3600 % 60;
}

unfoldable pub duration_of : ℤ → Duration
duration_of (pos n) = within_day (pos (n / 86400)) (n % 86400)
duration_of (negsuc n) = within_day (negsuc (n / 86400)) (86399 - n % 86400)

abbrev part : ℕ → String → List String
part n unit = if nat_eq n 0 then [] else (show n <> unit) ∷ []

abbrev day_part : ℤ → List String
day_part (pos n) = part n " 天"
day_part (negsuc n) = (show_int (negsuc n) <> " 天") ∷ []

unfoldable pub parts_of : Duration → List String
parts_of d = day_part d.days ++ part d.hours " 小时" ++ part d.minutes " 分钟" ++ part d.seconds " 秒"

abbrev or_zero : List String → String
or_zero [] = "0 秒"
or_zero (p ∷ ps) = join " " (p ∷ ps)

unfoldable pub fmt_seconds : ℤ → String
unfolding duration_of parts_of join
fmt_seconds seconds = or_zero (parts_of (duration_of seconds))

-- A value of INFO is a text, or the fields of a text of its own.
pub data InfoValue : Type 0 where
  plain : String → InfoValue
  fields : List (String × String) → InfoValue

unfoldable pub field_texts : List (String × String) → List String
field_texts [] = []
field_texts ((k, v) ∷ rest) = (k <> "=" <> v) ∷ field_texts rest

abbrev shown_value : InfoValue → String
shown_value (plain s) = s
shown_value (fields l) = join "," (field_texts l)

unfoldable pub set_info : String → String → List (String × String) → List (String × String)
set_info k v [] = (k, v) ∷ []
set_info k v ((j, w) ∷ rest) =
    let later = set_info k v rest in if j == k then (k, v) ∷ rest else (j, w) ∷ later

unfoldable pub get_info_value : String → List (String × String) → String → String
get_info_value k [] default_value = default_value
get_info_value k ((j, w) ∷ rest) default_value =
    let later = get_info_value k rest default_value in if j == k then w else later

unfoldable pub fmt_info : List (String × InfoValue) → List (String × String)
unfolding field_texts join
fmt_info [] = []
fmt_info ((k, v) ∷ rest) = (k, shown_value v) ∷ fmt_info rest

abbrev with_uptime : List (String × String) → Option ℤ → Result (List (String × String))
unfolding fmt_seconds set_info
with_uptime info none = raise (other "invalid literal for int() with base 10")
with_uptime info (some uptime) = ok (set_info "uptime_in_seconds" (fmt_seconds uptime) info)

-- RedisInfo.get_info, for the answers of INFO and DBSIZE
unfoldable pub get_info : List (String × InfoValue) → ℕ → Result (List (String × String))
unfolding fmt_info set_info get_info_value int with_uptime
get_info info db_size =
    let formatted = set_info "keys_num" (show db_size) (fmt_info info) in
    with_uptime formatted (int (get_info_value "uptime_in_seconds" formatted "0"))

abbrev last_part : List String → String
last_part [] = ""
last_part (s ∷ []) = s
last_part (s ∷ t ∷ rest) = last_part (t ∷ rest)

-- RedisInfo.get_stats: each command with its number of calls
unfoldable pub get_stats : List (String × InfoValue) → List (String × String)
unfolding get_info_value split
get_stats [] = []
get_stats ((k, plain s) ∷ rest) = get_stats rest
get_stats ((k, fields l) ∷ rest) =
    (last_part (split (is_char b'_') k), get_info_value "calls" l "0") ∷ get_stats rest
