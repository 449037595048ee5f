-- ===== src/Retention.antt =====
-- src/retention_policy.h: the numbers read from the environment.
-- A variable is the list of its characters' codes, `none` when it is not set; a result `none` is
-- the std::invalid_argument. The values stay below ten times the maximum, which fits an `int`.
pub mod Decimal
mod Examples
use crossdesk_server.Common.{
  ℕ, ◌+◌, ◌-◌, ◌*◌, ◌/◌, String, Bool, ◌||◌, Option, none, some, List, [], ◌∷◌, ltb, if◌then◌else◌,
}

pub record RetentionPolicy : Type 0 where
  pub log_days : ℕ
  pub offline_days : ℕ
  pub interval_seconds : ℕ

-- The loop of `Read` over the characters.
read_digits : ℕ → ℕ → List ℕ → Option ℕ
read_digits maximum value [] = some value
read_digits maximum value (c ∷ rest) =
    let next = value * 10 + (c - 48) in
    let later = read_digits maximum next rest in
    if ltb c 48 || ltb 57 c || ltb (maximum / 10) value
    then none
    else if ltb maximum next
    then none
    else later

at_least : ℕ → Option ℕ → Option ℕ
at_least minimum none = none
at_least minimum (some value) = if ltb value minimum then none else some value

pub read : Option (List ℕ) → ℕ → ℕ → ℕ → Option ℕ
unfolding at_least read_digits
read none fallback minimum maximum = some fallback
read (some []) fallback minimum maximum = some fallback
read (some (c ∷ rest)) fallback minimum maximum =
    at_least minimum (read_digits maximum 0 (c ∷ rest))

with_interval : ℕ → ℕ → Option ℕ → Option RetentionPolicy
with_interval log_days offline_days none = none
with_interval log_days offline_days (some interval_seconds) = some (record {
  log_days = log_days;
  offline_days = offline_days;
  interval_seconds = interval_seconds;
})

with_offline : ℕ → Option ℕ → Option ℕ → Option RetentionPolicy
unfolding with_interval
with_offline log_days none interval = none
with_offline log_days (some offline_days) interval = with_interval log_days offline_days interval

with_log : Option ℕ → Option ℕ → Option ℕ → Option RetentionPolicy
unfolding with_offline
with_log none offline interval = none
with_log (some log_days) offline interval = with_offline log_days offline interval

pub from_environment : (String → Option (List ℕ)) → Option RetentionPolicy
unfolding with_log read
from_environment getenv =
    with_log (read (getenv "CROSSDESK_LOG_RETENTION_DAYS") 185 1 3650)
      (read (getenv "CROSSDESK_OFFLINE_RETENTION_DAYS") 180 1 3650)
      (read (getenv "CROSSDESK_RETENTION_INTERVAL_SECONDS") 3600 60 86400)
