-- ===== src/AuthLimiter/Verify/Authentic.antt =====
-- Only a password check that succeeds can authenticate.
use crossdesk_server.Common.{ℕ, String, ◌≡◌, Bool, true, Option, none, some}
use crossdesk_server.AuthLimiter.Bucket.{Operation, Buckets}
use crossdesk_server.AuthLimiter.Verify.{
  Limiter, Reservation, Admission, denied, admitted, returned, verdict, settle_targets,
  settle_sources, settle, after_admission, verify, reserve,
}

settle_targets-verdict :
    (l : Limiter) (sources : Buckets) (o : Option Buckets) (passed : Bool) (l' : Limiter) (n : ℕ)
    → settle_targets l (returned passed) sources o ≡ some (l', verdict true n)
    → passed ≡ true
unfolding settle_targets
settle_targets-verdict l sources none passed l' n h = absurd (cc)
settle_targets-verdict l sources (some targets) passed l' n h = cc

settle_sources-verdict :
    (l : Limiter) (now : ℕ) (r : Reservation) (op : Operation) (o : Option Buckets) (passed : Bool)
    (l' : Limiter) (n : ℕ)
    → settle_sources l now r (returned passed) op o ≡ some (l', verdict true n)
    → passed ≡ true
unfolding settle_sources
settle_sources-verdict l now r op none passed l' n h = absurd (cc)
settle_sources-verdict l now r op (some sources) passed l' n h =
    settle_targets-verdict l sources _ passed l' n h

after_admission-verdict :
    (a : Admission) (l : Limiter) (others : Limiter → Limiter) (passed : Bool) (end : ℕ)
    (op : Operation) (l' : Limiter) (n : ℕ)
    → after_admission a l others (returned passed) end op ≡ some (l', verdict true n)
    → passed ≡ true
unfolding after_admission settle
after_admission-verdict (denied retry) l others passed end op l' n h = absurd (cc)
after_admission-verdict (admitted r) l others passed end op l' n h =
    settle_sources-verdict (others l) end r op _ passed l' n h

-- A verification authenticates only if the password check that it called succeeded.
pub verify-verdict :
    (l : Limiter) (now : ℕ) (source target : String) (others : Limiter → Limiter) (passed : Bool)
    (end : ℕ) (op : Operation) (l' : Limiter) (n : ℕ)
    → verify l now source target others (returned passed) end op ≡ some (l', verdict true n)
    → passed ≡ true
unfolding verify
verify-verdict l now source target others passed end op l' n h =
    after_admission-verdict (reserve l now source target).1 (reserve l now source target).0 others
      passed end op l' n h
