-- ===== src/AuthLimiter/Bucket/Cooldown.antt =====
-- What is left of a key's cooldown, under cleanup and in a probe.
use crossdesk_server.Common.{
  ℕ, ◌≤◌, String, ◌≡◌, refl, Option, none, some, find, find-revise, and_then, string_key, arith,
}
use crossdesk_server.AuthLimiter.Bucket.{
  Failures, Buckets, remaining, prune, pruned, probe, probe_found, bucket_delay, reset_expired,
}
use crossdesk_server.AuthLimiter.Bucket.Sound.{IsSound}
use crossdesk_server.AuthLimiter.Bucket.Budget.{IsBudget}

remaining-pruned :
    (limit now : ℕ) (key : String) (f : Failures)
    → IsSound limit f
    → remaining now (pruned now key f) ≡ remaining now (some f)
unfolding pruned remaining
remaining-pruned limit now key f s = ground (arith, s.ordered)

remaining-le-bucket_delay :
    (limit now : ℕ) (f : Failures)
    → IsSound limit f
    → remaining now (some f) ≤ bucket_delay limit now (reset_expired now f)
unfolding bucket_delay reset_expired remaining
remaining-le-bucket_delay limit now f s = ground (arith, s.ordered)

module _ (limit : ℕ) (b : Buckets) (tally : String → ℕ) where
  -- A cooldown outlives the cleanup of its budget.
  pub remaining-prune :
      (now : ℕ) (key : String)
      → IsBudget limit b tally
      → remaining now (find key (prune now b)) ≡ remaining now (find key b)
  unfolding prune
  remaining-prune now key v =
      rw (find-revise (pruned now) key b v.unique) (by_case (find key b) refl)
    where
      by_case :
          (o : Option Failures)
          → find key b ≡ o
          → remaining now (and_then o (pruned now key)) ≡ remaining now o
      by_case none e = refl
      by_case (some f) e = remaining-pruned limit now key f (v.sound key f e)

  -- The delay that a probe reports is no shorter than the cooldown.
  pub remaining-le-probe :
      (now : ℕ) (key : String)
      → IsBudget limit b tally
      → remaining now (find key b) ≤ (probe limit now key b).1
  unfolding probe
  remaining-le-probe now key v = by_case (find key b) refl
    where
      by_case :
          (o : Option Failures)
          → find key b ≡ o
          → remaining now o ≤ (probe_found limit now key b o).1
      by_case none e = unfold remaining in omega arith
      by_case (some f) e = remaining-le-bucket_delay limit now f (v.sound key f e)
