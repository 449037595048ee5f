-- ===== src/AuthLimiter/Verify/Budgets.antt =====
-- Both budgets together: admission takes a slot in each, settlement gives both back.
use crossdesk_server.Common.{
  ℕ, ◌<◌, String, ◌≡◌, refl, ◌∙◌, false, ◌||◌, some, leb, ltb, string_key, find, Bool-cases, inl,
  inr, arith,
}
use crossdesk_server.AuthLimiter.Bucket.{Buckets, Operation, is_full}
use crossdesk_server.AuthLimiter.Bucket.Sound.{IsReady}
use crossdesk_server.AuthLimiter.Bucket.Budget.{
  IsBudget, grown, shrunk, prune-IsBudget, probe-IsBudget, probe-IsReady, hold-IsBudget,
  finish-IsBudget,
}
use crossdesk_server.AuthLimiter.Verify.{
  Limiter, Reservation, Admission, denied, admitted, Outcome, authenticated, verdict_of, source_key,
  reserve, admit, admit_probed, probe_both, reserved, cleanup, settle, settle_sources,
  settle_targets,
}

-- The two tallies may be replaced by any that agree.
pub IsBudget-tally :
    (limit : ℕ) (b : Buckets) (s t : String → ℕ)
    → ((k : String) → s k ≡ t k)
    → IsBudget limit b s
    → IsBudget limit b t
IsBudget-tally limit b s t h v = record {
  counted = λ k. v.counted k ∙ h k;
  sound = v.sound;
  unique = v.unique;
  small = v.small;
}

-- Both budgets of a limiter, for given tallies.
pub record AreBudgets (l : Limiter) (s t : String → ℕ) : Type 0 where
  pub source_limit : 0 < l.source_failure_limit
  pub target_limit : 0 < l.target_failure_limit
  pub source_budget : IsBudget l.source_failure_limit l.sources s
  pub target_budget : IsBudget l.target_failure_limit l.targets t

pub cleanup-AreBudgets :
    (l : Limiter) (now : ℕ) (s t : String → ℕ) → AreBudgets l s t → AreBudgets (cleanup l now) s t
unfolding cleanup
cleanup-AreBudgets l now s t v = elim (Bool-cases (leb l.next_cleanup now)) [
  | inl e ↦ rw e (record {
    source_limit = v.source_limit;
    target_limit = v.target_limit;
    source_budget = prune-IsBudget _ _ s now v.source_budget;
    target_budget = prune-IsBudget _ _ t now v.target_budget;
  })
  | inr e ↦ rw e v
]

-- What the result of `admit` says of the budgets.
abbrev pub Admits : (String → ℕ) → (String → ℕ) → String → String → Limiter → Admission → Type 0
Admits s t source target l (denied retry) = AreBudgets l s t
Admits s t source target l (admitted r) =
    (r.source ≡ source) × (r.target ≡ target) × AreBudgets l (grown source s) (grown target t)

AreReady : Limiter → String → String → Type 0
AreReady l source target =
    IsReady l.source_failure_limit (find source l.sources)
    × IsReady l.target_failure_limit (find target l.targets)

reserved-Admits :
    (l : Limiter) (now : ℕ) (source target : String) (s t : String → ℕ)
    → AreBudgets l s t
    → AreReady l source target
    → (is_full source l.sources || is_full target l.targets) ≡ false
    → Admits s t source target (reserved now source target l).0 (reserved now source target l).1
unfolding reserved AreReady
reserved-Admits l now source target s t v ready free = (
  refl,
  refl,
  record {
    source_limit = v.source_limit;
    target_limit = v.target_limit;
    source_budget =
        hold-IsBudget _ _ s now source v.source_limit ready.0 (ground arith) v.source_budget;
    target_budget =
        hold-IsBudget _ _ t now target v.target_limit ready.1 (ground arith) v.target_budget;
  },
)

admit_probed-Admits :
    (l : Limiter) (retry now : ℕ) (source target : String) (s t : String → ℕ)
    → AreBudgets l s t
    → (retry ≡ 0 → AreReady l source target)
    → Admits s t source target
        (admit_probed now source target (l, retry)).0
        (admit_probed now source target (l, retry)).1
unfolding admit_probed
admit_probed-Admits l retry now source target s t v ready = elim (Bool-cases (ltb 0 retry)) [
  | inl e ↦ rw e v
  | inr e ↦ rw e (elim (Bool-cases (is_full source l.sources || is_full target l.targets)) [
    | inl full ↦ rw full v
    | inr free ↦ rw free (reserved-Admits l now source target s t v (ready (ground arith)) free)
  ])
]

probe_both-AreBudgets :
    (l : Limiter) (now : ℕ) (source target : String) (s t : String → ℕ)
    → AreBudgets l s t
    → AreBudgets (probe_both l now source target).0 s t
unfolding probe_both
probe_both-AreBudgets l now source target s t v = record {
  source_limit = v.source_limit;
  target_limit = v.target_limit;
  source_budget = probe-IsBudget _ _ s now source v.source_limit v.source_budget;
  target_budget = probe-IsBudget _ _ t now target v.target_limit v.target_budget;
}

probe_both-AreReady :
    (l : Limiter) (now : ℕ) (source target : String) (s t : String → ℕ)
    → AreBudgets l s t
    → (probe_both l now source target).1 ≡ 0
    → AreReady (probe_both l now source target).0 source target
unfolding probe_both AreReady
probe_both-AreReady l now source target s t v e = (
  probe-IsReady _ _ s now source v.source_limit v.source_budget (omega arith),
  probe-IsReady _ _ t now target v.target_limit v.target_budget (omega arith),
)

pub reserve-Admits :
    (l : Limiter) (now : ℕ) (source target : String) (s t : String → ℕ)
    → AreBudgets l s t
    → Admits s t
        (source_key source)
        target
        (reserve l now source target).0
        (reserve l now source target).1
unfolding reserve admit
reserve-Admits l now source target s t v =
    let clean = cleanup-AreBudgets l now s t v in
    admit_probed-Admits (probe_both (cleanup l now) now (source_key source) target).0
      (probe_both (cleanup l now) now (source_key source) target).1 now (source_key source) target s
      t (probe_both-AreBudgets (cleanup l now) now (source_key source) target s t clean)
      (probe_both-AreReady (cleanup l now) now (source_key source) target s t clean)

-- A verification in flight can always be settled, and gives both slots back.
pub settle-AreBudgets :
    (l : Limiter) (now : ℕ) (r : Reservation) (outcome : Outcome) (op : Operation)
    (s t : String → ℕ)
    → AreBudgets l s t
    → 0 < s r.source
    → 0 < t r.target
    → (l' : Limiter) × (settle l now r outcome op ≡ some (l', verdict_of outcome))
      × AreBudgets l' (shrunk r.source s) (shrunk r.target t)
unfolding settle settle_sources settle_targets
settle-AreBudgets l now r outcome op s t v hs ht =
    let (b, e, p) =
      finish-IsBudget l.source_failure_limit l.sources s l.policy now r.source_generation
        (authenticated outcome) op r.source v.source_limit hs v.source_budget in
    let (c, f, q) =
      finish-IsBudget l.target_failure_limit l.targets t l.policy now r.target_generation
        (authenticated outcome) op r.target v.target_limit ht v.target_budget in
    (
      record l { sources = b; targets = c },
      rw (e, f),
      record {
        source_limit = v.source_limit;
        target_limit = v.target_limit;
        source_budget = p;
        target_budget = q;
      },
    )
