-- ===== src/AuthLimiter/Verify.antt =====
-- src/device_auth_limiter.{h,cpp}, class DeviceAuthLimiter: the two budgets and its operations.
-- `Verify` releases the lock while the password is computed, so it is `reserve`, what other calls
-- do meanwhile, and `settle`.
pub mod Budgets
pub mod Reach
pub mod Cooldown
pub mod Authentic
mod Examples
use crossdesk_server.Common.{
  ℕ, ◌+◌, ◌*◌, ◌/◌, max, String, Bool, true, false, ◌&&◌, ◌||◌, not, Option, none, some, List, [],
  ◌∷◌, ◌++◌, ltb, leb, ◌==◌, if◌then◌else◌, nat_key, string_key, find, revise,
}
use crossdesk_server.AuthLimiter.Bucket.{
  second, max_entries, window, Policy, Operation, Failures, Buckets, remaining_seconds, prune,
  remaining, cleared, probe, hold, generation_of, is_full, finish,
}

abbrev pub default_source_failures : ℕ
default_source_failures = 20

abbrev pub default_target_failures : ℕ
default_target_failures = 5

pub record Limiter : Type 0 where
  pub source_failure_limit : ℕ
  pub target_failure_limit : ℕ
  pub policy : Policy
  pub sources : Buckets
  pub targets : Buckets
  pub next_cleanup : ℕ

-- The constructor; `none` is its std::invalid_argument.
pub make : ℕ → ℕ → Policy → Option Limiter
make source_limit target_limit policy =
    if source_limit == 0 || target_limit == 0
    then none
    else some (record {
      source_failure_limit = source_limit;
      target_failure_limit = target_limit;
      policy = policy;
      sources = [];
      targets = [];
      next_cleanup = 0;
    })

unfoldable pub source_key : String → String
source_key source = if source == "" then "unknown" else source

unfoldable pub cooldown_remaining : Limiter → ℕ → String → String → ℕ
unfolding remaining source_key
cooldown_remaining l now source target =
    max (remaining now (find (source_key source) l.sources)) (remaining now (find target l.targets))

pub record Entry : Type 0 where
  pub source : Bool
  pub target : String
  pub failures : ℕ
  pub threshold : ℕ
  pub pending : ℕ
  pub retry_after : ℕ
  pub reset_after : ℕ
  pub operations : ℕ

pub entries : ℕ → Bool → ℕ → Buckets → List Entry
unfolding remaining_seconds
entries now source threshold [] = []
entries now source threshold ((key, f) ∷ rest) =
    let tail = entries now source threshold rest in
    if f.count == 0 || leb f.expires now
    then tail
    else record {
      source = source;
      target = key;
      failures = f.count;
      threshold = threshold;
      pending = f.pending;
      retry_after = remaining_seconds f.blocked_until now;
      reset_after = remaining_seconds f.expires now;
      operations = f.operations;
    }
      ∷ tail

pub snapshot : Limiter → ℕ → List Entry
unfolding entries
snapshot l now =
    entries now false l.target_failure_limit l.targets
    ++ entries now true l.source_failure_limit l.sources

pub clear_matching : Limiter → (Bool → String → Bool) → ℕ → Limiter
unfolding cleared
clear_matching l matches now = record l {
  sources = revise (cleared (matches true) now) l.sources;
  targets = revise (cleared (matches false) now) l.targets;
}

same_dimension : Bool → Bool → Bool
same_dimension true b = b
same_dimension false b = not b

pub clear : Limiter → Bool → String → ℕ → Limiter
unfolding clear_matching same_dimension
clear l source target now =
    clear_matching l (λ is_source key. same_dimension is_source source && key == target) now

pub record Reservation : Type 0 where
  pub source : String
  pub target : String
  pub source_generation : ℕ
  pub target_generation : ℕ

pub data Admission : Type 0 where
  denied : ℕ → Admission
  admitted : Reservation → Admission

pub cleanup : Limiter → ℕ → Limiter
unfolding prune
cleanup l now =
    if leb l.next_cleanup now
    then record l {
      sources = prune now l.sources;
      targets = prune now l.targets;
      next_cleanup = now + 60 * second;
    }
    else l

reserved : ℕ → String → String → Limiter → Limiter × Admission
unfolding hold generation_of
reserved now source target l =
    let sources = hold now source l.sources in
    let targets = hold now target l.targets in
    (
      record l { sources = sources; targets = targets },
      admitted (record {
        source = source;
        target = target;
        source_generation = generation_of (find source sources);
        target_generation = generation_of (find target targets);
      }),
    )

-- The two calls of the lambda `retry`.
probe_both : Limiter → ℕ → String → String → Limiter × ℕ
unfolding probe
probe_both l now source target =
    let by_source = probe l.source_failure_limit now source l.sources in
    let by_target = probe l.target_failure_limit now target l.targets in
    (record l { sources = by_source.0; targets = by_target.0 }, max by_source.1 by_target.1)

admit_probed : ℕ → String → String → Limiter × ℕ → Limiter × Admission
unfolding is_full reserved
admit_probed now source target (l, retry_after) =
    if ltb 0 retry_after
    then (l, denied retry_after)
    else if is_full source l.sources || is_full target l.targets
    then (l, denied (window / second))
    else reserved now source target l

-- `Verify` up to the unlock, once the buckets are clean and the source has its key.
admit : Limiter → ℕ → String → String → Limiter × Admission
unfolding probe_both admit_probed
admit l now source target = admit_probed now source target (probe_both l now source target)

pub reserve : Limiter → ℕ → String → String → Limiter × Admission
unfolding admit cleanup source_key
reserve l now source target = admit (cleanup l now) now (source_key source) target

-- What the callback `verify` does.
pub data Outcome : Type 0 where
  returned : Bool → Outcome
  threw : Outcome

abbrev pub authenticated : Outcome → Bool
authenticated (returned b) = b
authenticated threw = false

pub data Verdict : Type 0 where
  verdict : Bool → ℕ → Verdict
  rethrown : Verdict

pub verdict_of : Outcome → Verdict
verdict_of (returned b) = verdict b 0
verdict_of threw = rethrown

settle_targets : Limiter → Outcome → Buckets → Option Buckets → Option (Limiter × Verdict)
unfolding verdict_of
settle_targets l outcome sources none = none
settle_targets l outcome sources (some targets) =
    some (record l { sources = sources; targets = targets }, verdict_of outcome)

settle_sources :
    Limiter → ℕ → Reservation → Outcome → Operation → Option Buckets → Option (Limiter × Verdict)
unfolding settle_targets finish
settle_sources l now r outcome operation none = none
settle_sources l now r outcome operation (some sources) = settle_targets l outcome sources (
    finish l.policy l.target_failure_limit now r.target_generation (authenticated outcome) operation
      r.target l.targets)

-- `Verify` from the second lock on.
pub settle : Limiter → ℕ → Reservation → Outcome → Operation → Option (Limiter × Verdict)
unfolding settle_sources
settle l now r outcome operation = settle_sources l now r outcome operation (
    finish l.policy l.source_failure_limit now r.source_generation (authenticated outcome) operation
      r.source l.sources)

after_admission :
    Admission → Limiter → (Limiter → Limiter) → Outcome → ℕ → Operation → Option (Limiter × Verdict)
unfolding settle
after_admission (denied retry_after) l others outcome end operation =
    some (l, verdict false retry_after)
after_admission (admitted r) l others outcome end operation =
    settle (others l) end r outcome operation

-- The whole call: `others` is what other threads do to the limiter while the password is checked.
unfoldable pub verify :
    Limiter
    → ℕ
    → String
    → String
    → (Limiter → Limiter)
    → Outcome
    → ℕ
    → Operation
    → Option (Limiter × Verdict)
unfolding reserve after_admission
verify l now source target others outcome end operation =
    let (reserved_l, admission) = reserve l now source target in
    after_admission admission reserved_l others outcome end operation
