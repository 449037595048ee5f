-- ===== src/Retention/Decimal.antt =====
-- What `Read` accepts: the decimal numbers between the bounds.
use crossdesk_server.Common.{
  ℕ, ◌+◌, ◌-◌, ◌*◌, ◌≤◌, String, Bool, true, ◌&&◌, Option, none, some, List, [], ◌∷◌, leb, ◌≡◌,
  arith, if◌then◌else◌,
}
use crossdesk_server.Retention.{
  RetentionPolicy, read, read_digits, at_least, from_environment, with_log, with_offline,
  with_interval,
}

-- The characters are digits.
unfoldable pub are_digits : List ℕ → Bool
are_digits [] = true
are_digits (c ∷ rest) = leb 48 c && (leb c 57 && are_digits rest)

-- The number that the digits write after `value`.
unfoldable pub decimal : ℕ → List ℕ → ℕ
decimal value [] = value
decimal value (c ∷ rest) = decimal (value * 10 + (c - 48)) rest

decimal_ge : (value : ℕ) (text : List ℕ) → value ≤ decimal value text
unfolding decimal
decimal_ge value [] = omega arith
decimal_ge value (c ∷ rest) = omega (arith, decimal_ge (value * 10 + (c - 48)) rest)

read_digits_lem :
    (maximum value : ℕ) (text : List ℕ)
    → value ≤ maximum
    → read_digits maximum value text ≡ (
        if are_digits text && leb (decimal value text) maximum
        then some (decimal value text)
        else none)
unfolding read_digits are_digits decimal
read_digits_lem maximum value [] h = ground arith
read_digits_lem maximum value (c ∷ rest) h =
    let next = value * 10 + (c - 48) in
    ground (arith, read_digits_lem maximum next rest, decimal_ge next rest)

-- A variable that is set and not empty is accepted exactly when it writes a decimal number between
-- the bounds, and its value is that number, however many zeros it starts with.
pub read_lem :
    (c : ℕ) (rest : List ℕ) (fallback minimum maximum : ℕ)
    → let value = decimal 0 (c ∷ rest) in
      read (some (c ∷ rest)) fallback minimum maximum ≡ (
        if are_digits (c ∷ rest) && (leb value maximum && leb minimum value)
        then some value
        else none)
unfolding read at_least
read_lem c rest fallback minimum maximum = ground (arith, read_digits_lem maximum 0 (c ∷ rest))

read-bounds :
    (raw : Option (List ℕ)) (fallback minimum maximum value : ℕ)
    → (minimum ≤ fallback) × (fallback ≤ maximum)
    → read raw fallback minimum maximum ≡ some value
    → (minimum ≤ value) × (value ≤ maximum)
unfolding read
read-bounds none fallback minimum maximum value b h = ground arith
read-bounds (some []) fallback minimum maximum value b h = ground arith
read-bounds (some (c ∷ rest)) fallback minimum maximum value b h =
    ground (arith, read_lem c rest fallback minimum maximum)

with_log-fields :
    (log offline interval : Option ℕ) (policy : RetentionPolicy)
    → with_log log offline interval ≡ some policy
    → (log ≡ some policy.log_days)
      × ((offline ≡ some policy.offline_days) × (interval ≡ some policy.interval_seconds))
unfolding with_log with_offline with_interval
with_log-fields none offline interval policy h = ground arith
with_log-fields (some l) none interval policy h = ground arith
with_log-fields (some l) (some o) none policy h = ground arith
with_log-fields (some l) (some o) (some i) policy h = ground arith

-- Whatever the environment, a policy that is read keeps logs and offline devices from 1 to 3650
-- days and runs every 60 to 86400 seconds.
pub from_environment-bounds :
    (getenv : String → Option (List ℕ)) (policy : RetentionPolicy)
    → from_environment getenv ≡ some policy
    → ((1 ≤ policy.log_days) × (policy.log_days ≤ 3650))
      × (((1 ≤ policy.offline_days) × (policy.offline_days ≤ 3650))
          × ((60 ≤ policy.interval_seconds) × (policy.interval_seconds ≤ 86400)))
unfolding from_environment
from_environment-bounds getenv policy h =
    let f =
      with_log-fields (read (getenv "CROSSDESK_LOG_RETENTION_DAYS") 185 1 3650)
        (read (getenv "CROSSDESK_OFFLINE_RETENTION_DAYS") 180 1 3650)
        (read (getenv "CROSSDESK_RETENTION_INTERVAL_SECONDS") 3600 60 86400) policy h in
    (
      read-bounds (getenv "CROSSDESK_LOG_RETENTION_DAYS") 185 1 3650 policy.log_days
          (omega arith, omega arith) f.0,
      (
        read-bounds (getenv "CROSSDESK_OFFLINE_RETENTION_DAYS") 180 1 3650 policy.offline_days
            (omega arith, omega arith) f.1.0,
        read-bounds (getenv "CROSSDESK_RETENTION_INTERVAL_SECONDS") 3600 60 86400
            policy.interval_seconds (omega arith, omega arith) f.1.1,
      ),
    )
