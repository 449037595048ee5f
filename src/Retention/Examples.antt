-- ===== src/Retention/Examples.antt =====
-- Tests of the numbers read from the environment.
use crossdesk_server.Common.{
  ℕ, String, Option, none, some, List, [], ◌∷◌, ◌≡◌, refl, ◌==◌, string_key, if◌then◌else◌,
}
use crossdesk_server.Retention.{RetentionPolicy, read}
use crossdesk_server.Retention.Decimal.{are_digits, decimal, read_lem}

-- "007" is 7, and "3651" is out of range.
read_zeros : read (some (48 ∷ 48 ∷ 55 ∷ [])) 185 1 3650 ≡ some 7
unfolding read
read_zeros = refl

read_large : read (some (51 ∷ 54 ∷ 53 ∷ 49 ∷ [])) 185 1 3650 ≡ none
unfolding read
read_large = refl

read_lem_example : read (some (51 ∷ 48 ∷ [])) 185 1 3650 ≡ some 30
unfolding are_digits decimal
read_lem_example = read_lem 51 (48 ∷ []) 185 1 3650

abbrev thirty_days : String → Option (List ℕ)
thirty_days name = if name == "CROSSDESK_LOG_RETENTION_DAYS" then some (51 ∷ 48 ∷ []) else none

abbrev thirty_day_policy : RetentionPolicy
thirty_day_policy = record { log_days = 30; offline_days = 180; interval_seconds = 3600 }
