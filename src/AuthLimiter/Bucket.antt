-- ===== src/AuthLimiter/Bucket.antt =====
-- src/device_auth_limiter.{h,cpp}: one budget of class DeviceAuthLimiter, a map from keys to
-- `Failures`, and the lambdas and helpers that work on it.
-- Time is in nanoseconds of the steady clock, from its epoch.
pub mod Backoff
pub mod Sound
pub mod Budget
pub mod Cooldown
mod Examples
use Prim.Native.Nat.{bit_or}
use crossdesk_server.Common.{
  ℕ, ◌+◌, ◌-◌, ◌*◌, ◌/◌, ◌%◌, ◌^◌, min, String, Bool, ◌&&◌, not, Option, none, some, ltb, leb, ◌==◌,
  if◌then◌else◌, is_some, or_else, length, nat_key, string_key, Assoc, find, set, erase, revise,
}

abbrev pub second : ℕ
second = 1000000000

abbrev pub max_entries : ℕ
max_entries = 16384

abbrev pub window : ℕ
window = 900 * second

abbrev pub initial_backoff : ℕ
initial_backoff = 60 * second

abbrev pub max_backoff : ℕ
max_backoff = 14400 * second

abbrev pub backoff_recovery : ℕ
backoff_recovery = 1800 * second

pub data Policy : Type 0 where
  fixed exponential : Policy

pub data Operation : Type 0 where
  unspecified device_login remote_connection member_query device_key_binding : Operation

abbrev pub flag : Operation → ℕ
flag unspecified = 0
flag device_login = 1
flag remote_connection = 2
flag member_query = 4
flag device_key_binding = 8

pub record Failures : Type 0 where
  pub count : ℕ
  pub pending : ℕ
  pub expires : ℕ
  pub blocked_until : ℕ
  pub backoff : ℕ
  pub generation : ℕ
  pub operations : ℕ

abbrev pub Buckets : Type 0
Buckets = Assoc String Failures

-- A missing deadline is the clock's epoch; the division rounds up.
unfoldable pub remaining_seconds : ℕ → ℕ → ℕ
remaining_seconds deadline now =
    if ltb now deadline then (deadline - now + (second - 1)) / second else 0

pruned : ℕ → String → Failures → Option Failures
pruned now key f = if leb f.expires now && f.pending == 0 then none else some f

unfoldable pub prune : ℕ → Buckets → Buckets
unfolding pruned
prune now = revise (pruned now)

pub reset_expired : ℕ → Failures → Failures
reset_expired now f = if ltb now f.expires then f else record f {
  count = 0;
  expires = now + window;
  blocked_until = 0;
  backoff = 0;
  operations = 0;
}

next_backoff : Policy → ℕ → ℕ
next_backoff fixed backoff = window
next_backoff exponential backoff =
    if backoff == 0 then initial_backoff else min (backoff * 2) max_backoff

recovery : Policy → ℕ
recovery fixed = 0
recovery exponential = backoff_recovery

-- The cooldown that follows a failure which reaches the limit.
block : Policy → ℕ → Failures → Failures
unfolding next_backoff recovery
block policy now f =
    let backoff = next_backoff policy f.backoff in
    record f {
      expires = now + backoff + recovery policy;
      blocked_until = now + backoff;
      backoff = backoff;
    }

pub record_failure : Policy → ℕ → ℕ → Operation → Failures → Failures
unfolding block
record_failure policy limit now operation f =
    let flagged : Failures = record f { operations = bit_or f.operations (flag operation) } in
    let counted : Failures =
      if ltb f.count limit then record flagged { count = f.count + 1 } else flagged in
    if ltb counted.count limit then counted else block policy now counted

unfoldable pub remaining : ℕ → Option Failures → ℕ
unfolding remaining_seconds
remaining now none = 0
remaining now (some f) = remaining_seconds f.blocked_until now

-- A bucket that the caller's test selects: an idle one goes, one in use starts a new generation.
unfoldable pub cleared : (String → Bool) → ℕ → String → Failures → Option Failures
unfolding reset_expired
cleared matches now key f =
    if matches key
    then (if f.pending == 0
        then none
        else some (
            reset_expired now
              (record f { generation = (f.generation + 1) % 2 ^ 64; expires = now })))
    else some f

-- The lambda `retry`: a bucket that exists is first reset if it has expired.
available : ℕ → Failures → ℕ
available limit f = if ltb f.count limit then limit - f.count else 1

pub bucket_delay : ℕ → ℕ → Failures → ℕ
unfolding remaining_seconds available
bucket_delay limit now f =
    let delay = remaining_seconds f.blocked_until now in
    if ltb 0 delay then delay else if leb (available limit f) f.pending then 1 else 0

probe_found : ℕ → ℕ → String → Buckets → Option Failures → Buckets × ℕ
unfolding bucket_delay reset_expired
probe_found limit now key buckets none = (buckets, 0)
probe_found limit now key buckets (some f) =
    (set key (reset_expired now f) buckets, bucket_delay limit now (reset_expired now f))

unfoldable pub probe : ℕ → ℕ → String → Buckets → Buckets × ℕ
unfolding probe_found
probe limit now key buckets = probe_found limit now key buckets (find key buckets)

fresh : ℕ → Failures
fresh now = record {
  count = 0;
  pending = 0;
  expires = now + window;
  blocked_until = 0;
  backoff = 0;
  generation = 0;
  operations = 0;
}

-- try_emplace, then `++bucket.pending`
pub held : ℕ → Option Failures → Failures
unfolding fresh
held now o = let f = or_else o (fresh now) in record f { pending = f.pending + 1 }

unfoldable pub hold : ℕ → String → Buckets → Buckets
unfolding held
hold now key buckets = set key (held now (find key buckets)) buckets

unfoldable pub generation_of : Option Failures → ℕ
generation_of none = 0
generation_of (some f) = f.generation

unfoldable pub is_full : String → Buckets → Bool
is_full key buckets = not (is_some (find key buckets)) && leb max_entries (length buckets)

decrement : ℕ → ℕ
decrement n = if n == 0 then 2 ^ 64 - 1 else n - 1

freed : ℕ → Failures → Failures
unfolding decrement reset_expired
freed now f = reset_expired now (record f { pending = decrement f.pending })

-- The lambda `finish` on its bucket, before the erasure.
pub finished : Policy → ℕ → ℕ → ℕ → Bool → Operation → Failures → Failures
unfolding freed record_failure
finished policy limit now generation passed operation f =
    let free = freed now f in
    if not passed && free.generation == generation
    then record_failure policy limit now operation free
    else free

store_finished : String → Failures → Buckets → Buckets
store_finished key f buckets =
    if f.count == 0 && f.pending == 0 then erase key buckets else set key f buckets

finish_found :
    Policy → ℕ → ℕ → ℕ → Bool → Operation → String → Buckets → Option Failures → Option Buckets
unfolding finished store_finished
finish_found policy limit now generation passed operation key buckets none = none
finish_found policy limit now generation passed operation key buckets (some f) =
    some (store_finished key (finished policy limit now generation passed operation f) buckets)

-- `none` is the std::out_of_range of `buckets.at(key)`.
unfoldable pub finish : Policy → ℕ → ℕ → ℕ → Bool → Operation → String → Buckets → Option Buckets
unfolding finish_found
finish policy limit now generation passed operation key buckets =
    finish_found policy limit now generation passed operation key buckets (find key buckets)
