-- ===== src/AuthLimiter/Verify/Cooldown.antt =====
-- While a cooldown runs, no verification is admitted, and the caller is told so.
use crossdesk_server.Common.{
  ℕ, ◌≤◌, ◌<◌, String, ◌≡◌, leb, string_key, nat_key, Bool-cases, lt→ltb, inl, inr, arith,
}
use crossdesk_server.AuthLimiter.Bucket.Cooldown.{remaining-le-probe, remaining-prune}
use crossdesk_server.AuthLimiter.Verify.{
  Limiter, denied, source_key, reserve, admit, admit_probed, probe_both, cleanup,
  cooldown_remaining,
}
use crossdesk_server.AuthLimiter.Verify.Budgets.{AreBudgets, cleanup-AreBudgets}

cooldown_remaining-cleanup :
    (l : Limiter) (now : ℕ) (source target : String) (s t : String → ℕ)
    → AreBudgets l s t
    → cooldown_remaining (cleanup l now) now source target ≡ cooldown_remaining l now source target
unfolding cooldown_remaining cleanup
cooldown_remaining-cleanup l now source target s t v = elim (Bool-cases (leb l.next_cleanup now)) [
  | inl e ↦ rw (
    e,
    remaining-prune l.source_failure_limit l.sources s now (source_key source) v.source_budget,
    remaining-prune l.target_failure_limit l.targets t now target v.target_budget,
  )
  | inr e ↦ rw e
]

cooldown_remaining-le-probe_both :
    (l : Limiter) (now : ℕ) (source target : String) (s t : String → ℕ)
    → AreBudgets l s t
    → cooldown_remaining l now source target ≤ (probe_both l now (source_key source) target).1
unfolding cooldown_remaining probe_both
cooldown_remaining-le-probe_both l now source target s t v = omega (
  arith,
  remaining-le-probe l.source_failure_limit l.sources s now (source_key source) v.source_budget,
  remaining-le-probe l.target_failure_limit l.targets t now target v.target_budget,
)

admit_probed_refuses :
    (l : Limiter) (retry now : ℕ) (source target : String)
    → 0 < retry
    → admit_probed now source target (l, retry) ≡ (l, denied retry)
unfolding admit_probed
admit_probed_refuses l retry now source target h = rw (lt→ltb 0 retry h)

-- In a consistent limiter, while `CooldownRemaining` is positive, `Verify` refuses without calling
-- the verification, and the delay that it reports is at least that cooldown.
pub reserve_cooldown :
    (l : Limiter) (now : ℕ) (source target : String) (s t : String → ℕ)
    → AreBudgets l s t
    → 0 < cooldown_remaining l now source target
    → (l' : Limiter) × (retry : ℕ) × (reserve l now source target ≡ (l', denied retry))
      × (cooldown_remaining l now source target ≤ retry)
unfolding reserve admit
reserve_cooldown l now source target s t v h =
    let clean = cleanup l now in
    let probed = probe_both clean now (source_key source) target in
    let bound =
      cooldown_remaining-le-probe_both clean now source target s t
        (cleanup-AreBudgets l now s t v) in
    let same = cooldown_remaining-cleanup l now source target s t v in
    (
      probed.0,
      probed.1,
      admit_probed_refuses probed.0 probed.1 now (source_key source) target (omega (arith, same)),
      omega (arith, same),
    )
