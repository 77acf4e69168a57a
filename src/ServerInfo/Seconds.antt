-- ===== src/ServerInfo/Seconds.antt =====
-- The parts of a duration add up.
use git_hub_repository_resea.Base.{ℕ, suc, ◌+◌, ◌*◌, ◌<◌, ◌≡◌, arith}
use git_hub_repository_resea.Text.Numbers.{ℤ, pos, negsuc}
use git_hub_repository_resea.ServerInfo.{Duration, duration_of}

abbrev rest_of_day : Duration → ℕ
rest_of_day d = d.hours * 3600 + d.minutes * 60 + d.seconds

-- The number of seconds that a duration stands for, as a difference: what is to be added to it, and
-- what it exceeds that by.
abbrev IsSeconds : ℤ → Duration → ℤ → Type 0
IsSeconds (pos days) d (pos n) = days * 86400 + rest_of_day d ≡ n
IsSeconds (negsuc days) d (negsuc n) = suc n + rest_of_day d ≡ suc days * 86400
IsSeconds _ d _ = ⊥

-- The days, hours, minutes and seconds that a number of seconds is shown by are those seconds again,
-- with fewer than 24 hours, 60 minutes and 60 seconds. A negative number is shown by negative days
-- and what is to be added to them.
pub duration_of-IsSeconds :
    (seconds : ℤ)
    → ((duration_of seconds).hours < 24)
      × ((duration_of seconds).minutes < 60)
      × ((duration_of seconds).seconds < 60)
      × IsSeconds (duration_of seconds).days (duration_of seconds) seconds
unfolding duration_of
duration_of-IsSeconds (pos n) = (omega arith, omega arith, omega arith, omega arith)
duration_of-IsSeconds (negsuc n) = (omega arith, omega arith, omega arith, omega arith)
