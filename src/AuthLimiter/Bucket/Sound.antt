-- ===== src/AuthLimiter/Bucket/Sound.antt =====
-- The invariant of one bucket of failures, and that each step on a bucket keeps it.
use crossdesk_server.Common.{
  ℕ, ◌+◌, ◌-◌, ◌≤◌, ◌<◌, ◌≡◌, Bool, not, ◌&&◌, Option, none, some, ◌==◌, nat_key, Bool-cases, inl,
  inr, arith,
}
use crossdesk_server.AuthLimiter.Bucket.{
  Failures, Policy, fixed, exponential, Operation, reset_expired, next_backoff, block, recovery,
  record_failure, available, bucket_delay, held, freed, finished, decrement,
}

abbrev pub pending_of : Option Failures → ℕ
pending_of none = 0
pending_of (some f) = f.pending

-- Failures and verifications in flight together stay within the limit, and once the limit is
-- reached there is one verification at a time.
pub record IsSound (limit : ℕ) (f : Failures) : Type 0 where
  pub within : f.count ≤ limit
  pub room : f.count < limit → f.count + f.pending ≤ limit
  pub single : limit ≤ f.count → f.pending ≤ 1
  pub ordered : f.blocked_until ≤ f.expires

abbrev pub IsReady : ℕ → Option Failures → Type 0
IsReady limit none = Unit {0}
IsReady limit (some f) =
    (f.count < limit → f.count + f.pending < limit) × (limit ≤ f.count → f.pending ≡ 0)

module _ (limit now : ℕ) (f : Failures) (pos : 0 < limit) where
  pub reset_expired-IsSound : IsSound limit f → IsSound limit (reset_expired now f)
  unfolding reset_expired
  reset_expired-IsSound s = ground arith

  pub record_failure-IsSound :
      (policy : Policy) (op : Operation)
      → (f.count < limit → f.count + f.pending < limit)
      → (limit ≤ f.count → f.pending ≡ 0)
      → f.count ≤ limit
      → f.blocked_until ≤ f.expires
      → IsSound limit (record_failure policy limit now op f)
  unfolding record_failure next_backoff recovery block
  record_failure-IsSound fixed op h k w o = ground arith
  record_failure-IsSound exponential op h k w o = ground arith

  pub bucket_delay-IsReady : bucket_delay limit now f ≡ 0 → IsSound limit f → IsReady limit (some f)
  unfolding bucket_delay available
  bucket_delay-IsReady e s = (λ h. ground arith, λ h. ground arith)

  freed-IsSound :
      IsSound limit f
      → 0 < f.pending
      → IsSound limit (freed now f) × IsReady limit (some (freed now f))
  unfolding freed
  freed-IsSound s used = (ground arith, (λ h. ground arith, λ h. ground arith))

  pub held-IsSound : IsReady limit (some f) → IsSound limit f → IsSound limit (held now (some f))
  unfolding held
  held-IsSound ready s = record {
    within = s.within;
    room = λ h. omega (arith, ready.0 h);
    single = λ h. omega (arith, ready.1 h);
    ordered = s.ordered;
  }

pub pending-reset_expired : (now : ℕ) (f : Failures) → (reset_expired now f).pending ≡ f.pending
unfolding reset_expired
pending-reset_expired now f = ground arith

pub finished-IsSound :
    (limit now : ℕ) (f : Failures) (policy : Policy) (generation : ℕ) (passed : Bool)
    (op : Operation)
    → 0 < limit
    → IsSound limit f
    → 0 < f.pending
    → IsSound limit (finished policy limit now generation passed op f)
unfolding finished
finished-IsSound limit now f policy generation passed op pos s used =
    elim (Bool-cases (not passed && (freed now f).generation == generation)) [
      | inl e ↦ rw e (
          record_failure-IsSound limit now (freed now f) pos policy op free.1.0 free.1.1
            free.0.within free.0.ordered)
      | inr e ↦ rw e free.0
    ]
  where
    free : IsSound limit (freed now f) × IsReady limit (some (freed now f))
    free = freed-IsSound limit now f pos s used

pub pending-record_failure :
    (policy : Policy) (limit now : ℕ) (op : Operation) (f : Failures)
    → (record_failure policy limit now op f).pending ≡ f.pending
unfolding record_failure block
pending-record_failure policy limit now op f = ground arith

pub pending-finished :
    (policy : Policy) (limit now generation : ℕ) (passed : Bool) (op : Operation) (f : Failures)
    → 0 < f.pending
    → (finished policy limit now generation passed op f).pending ≡ f.pending - 1
unfolding finished freed decrement
pending-finished policy limit now generation passed op f h = ground (
  arith,
  pending-record_failure policy limit now op (freed now f),
  pending-reset_expired now (record f { pending = decrement f.pending }),
)
