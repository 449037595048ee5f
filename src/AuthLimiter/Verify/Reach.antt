-- ===== src/AuthLimiter/Verify/Reach.antt =====
-- Verifications of several threads as a step relation, and the invariant of every reachable state.
use crossdesk_server.Common.{
  ℕ, ◌+◌, ◌-◌, ◌≤◌, ◌<◌, String, ◌≡◌, ◌⊎◌, refl, sym, subst, ◌∙◌, Bool, true, false, Option, none,
  some, List, [], ◌∷◌, ◌++◌, ◌==◌, if◌then◌else◌, string_key, find, count_if, count_if-append,
  ==_refl, Bool-cases, ltb, inl, inr, arith,
}
use crossdesk_server.AuthLimiter.Bucket.{Operation, Policy, Failures, Buckets}
use crossdesk_server.AuthLimiter.Bucket.Sound.{IsSound}
use crossdesk_server.AuthLimiter.Bucket.Budget.{IsBudget, grown, cleared-IsBudget}
use crossdesk_server.AuthLimiter.Verify.{
  Limiter, Reservation, denied, admitted, Outcome, Verdict, verdict_of, source_key, reserve, settle,
  clear_matching, make,
}
use crossdesk_server.AuthLimiter.Verify.Budgets.{
  AreBudgets, Admits, IsBudget-tally, reserve-Admits, settle-AreBudgets,
}

pub record World : Type 0 where
  pub limiter : Limiter
  pub in_flight : List Reservation

-- Each call of `Verify` begins, and ends after other calls had their turn; an administrator clears.
pub data Step (w : World) : World → Type 0 where
  refused :
      (now : ℕ) (source target : String) (l : Limiter) (retry : ℕ)
      → reserve w.limiter now source target ≡ (l, denied retry)
      → Step w (record { limiter = l; in_flight = w.in_flight })
  begins :
      (now : ℕ) (source target : String) (l : Limiter) (r : Reservation)
      → reserve w.limiter now source target ≡ (l, admitted r)
      → Step w (record { limiter = l; in_flight = r ∷ w.in_flight })
  ends :
      (now : ℕ) (before after : List Reservation) (r : Reservation) (outcome : Outcome)
      (operation : Operation) (l : Limiter) (v : Verdict)
      → w.in_flight ≡ before ++ r ∷ after
      → settle w.limiter now r outcome operation ≡ some (l, v)
      → Step w (record { limiter = l; in_flight = before ++ after })
  clears :
      (now : ℕ) (matches : Bool → String → Bool)
      → Step w (record { limiter = clear_matching w.limiter matches now; in_flight = w.in_flight })

abbrev pub by_source : List Reservation → String → ℕ
by_source rs key = count_if (λ r. r.source == key) rs

abbrev pub by_target : List Reservation → String → ℕ
by_target rs key = count_if (λ r. r.target == key) rs

-- The slots in use are exactly the verifications in flight, and each budget is sound.
abbrev pub IsConsistent : World → Type 0
IsConsistent w = AreBudgets w.limiter (by_source w.in_flight) (by_target w.in_flight)

pub data Reach (w : World) : World → Type 0 where
  here : Reach w w
  next : {u v : World} → Reach w u → Step u v → Reach w v

tally_middle :
    (before after : List Reservation) (r : Reservation) (p : Reservation → Bool)
    → count_if p (before ++ after) ≡ count_if p (before ++ r ∷ after) - (if p r then 1 else 0)
unfolding count_if
tally_middle before after r p =
    omega (arith, count_if-append p before after, count_if-append p before (r ∷ after))

tally_used :
    (before after : List Reservation) (r : Reservation) (p : Reservation → Bool)
    → p r ≡ true
    → 0 < count_if p (before ++ r ∷ after)
unfolding count_if
tally_used before after r p h = rw (count_if-append p before (r ∷ after), h) (omega arith)

-- A reservation that is in flight can be settled, whatever ran meanwhile: `buckets.at` does not
-- throw, and the result is the callback's own.
pub settle_in_flight :
    (w : World) (now : ℕ) (before after : List Reservation) (r : Reservation) (outcome : Outcome)
    (op : Operation)
    → IsConsistent w
    → w.in_flight ≡ before ++ r ∷ after
    → (l : Limiter) × (settle w.limiter now r outcome op ≡ some (l, verdict_of outcome))
      × IsConsistent (record { limiter = l; in_flight = before ++ after })
settle_in_flight w now before after r outcome op v e =
    let (l, s, b) =
      settle-AreBudgets w.limiter now r outcome op (by_source w.in_flight) (by_target w.in_flight) v
        (rw e (tally_used before after r (λ q. q.source == r.source) (==_refl r.source)))
        (rw e (tally_used before after r (λ q. q.target == r.target) (==_refl r.target))) in
    (
      l,
      s,
      record {
        source_limit = b.source_limit;
        target_limit = b.target_limit;
        source_budget =
            IsBudget-tally _ _ _ _
              (λ k. rw e (sym (tally_middle before after r (λ q. q.source == k)))) b.source_budget;
        target_budget =
            IsBudget-tally _ _ _ _
              (λ k. rw e (sym (tally_middle before after r (λ q. q.target == k)))) b.target_budget;
      },
    )

grown_source :
    (rs : List Reservation) (r : Reservation) (key : String)
    → r.source ≡ key
    → (k : String) → grown key (by_source rs) k ≡ by_source (r ∷ rs) k
unfolding count_if
grown_source rs r key e k = rw e

grown_target :
    (rs : List Reservation) (r : Reservation) (key : String)
    → r.target ≡ key
    → (k : String) → grown key (by_target rs) k ≡ by_target (r ∷ rs) k
unfolding count_if
grown_target rs r key e k = rw e

begin-IsConsistent :
    (w : World) (source target : String) (l : Limiter) (r : Reservation)
    → Admits
        (by_source w.in_flight)
        (by_target w.in_flight)
        (source_key source)
        target
        l
        (admitted r)
    → IsConsistent (record { limiter = l; in_flight = r ∷ w.in_flight })
begin-IsConsistent w source target l r (hs, ht, b) = record {
  source_limit = b.source_limit;
  target_limit = b.target_limit;
  source_budget =
      IsBudget-tally _ _ _ _ (grown_source w.in_flight r (source_key source) hs) b.source_budget;
  target_budget = IsBudget-tally _ _ _ _ (grown_target w.in_flight r target ht) b.target_budget;
}

clear_matching-AreBudgets :
    (l : Limiter) (matches : Bool → String → Bool) (now : ℕ) (s t : String → ℕ)
    → AreBudgets l s t
    → AreBudgets (clear_matching l matches now) s t
unfolding clear_matching
clear_matching-AreBudgets l matches now s t v = record {
  source_limit = v.source_limit;
  target_limit = v.target_limit;
  source_budget = cleared-IsBudget _ _ s (matches true) now v.source_budget;
  target_budget = cleared-IsBudget _ _ t (matches false) now v.target_budget;
}

settled_same :
    {p q : Limiter × Verdict} → Path (Option (Limiter × Verdict)) (some p) (some q) → q.0 ≡ p.0
settled_same e = cc

Step-IsConsistent : {u v : World} → Step u v → IsConsistent u → IsConsistent v
Step-IsConsistent {u} (refused now source target l retry e) c =
    subst
      (λ p.
        Admits (by_source u.in_flight) (by_target u.in_flight) (source_key source) target p.0 p.1)
      e (reserve-Admits u.limiter now source target _ _ c)
Step-IsConsistent {u} (begins now source target l r e) c = begin-IsConsistent u source target l r (
    subst
      (λ p.
        Admits (by_source u.in_flight) (by_target u.in_flight) (source_key source) target p.0 p.1)
      e (reserve-Admits u.limiter now source target _ _ c))
Step-IsConsistent {u} (ends now before after r outcome op l v e s) c =
    let (l', s', c') = settle_in_flight u now before after r outcome op c e in
    subst (λ m. IsConsistent (record { limiter = m; in_flight = before ++ after }))
      (settled_same (sym s ∙ s')) c'
Step-IsConsistent {u} (clears now matches) c = clear_matching-AreBudgets u.limiter matches now _ _ c

-- Every interleaving of verifications and clears keeps the slots in use equal to the verifications
-- in flight, and both budgets sound.
pub Reach-IsConsistent : {u v : World} → Reach u v → IsConsistent u → IsConsistent v
Reach-IsConsistent here c = c
Reach-IsConsistent (next r s) c = Step-IsConsistent s (Reach-IsConsistent r c)

pub make-IsConsistent :
    (source_limit target_limit : ℕ) (policy : Policy) (l : Limiter)
    → make source_limit target_limit policy ≡ some l
    → IsConsistent (record { limiter = l; in_flight = [] })
unfolding make find count_if
make-IsConsistent source_limit target_limit policy l e = record {
  source_limit = ground arith;
  target_limit = ground arith;
  source_budget = empty_budget l.source_failure_limit l.sources (ground arith);
  target_budget = empty_budget l.target_failure_limit l.targets (ground arith);
}
  where
    empty_budget : (limit : ℕ) (b : Buckets) → b ≡ [] → IsBudget limit b (λ _. 0)
    empty_budget limit b e =
        rw e (record { counted = λ k. refl; sound = λ k f h. cc; unique = tt; small = omega arith })

-- `n` verifications are in flight for a key with this bucket.
abbrev pub WithinLimit : ℕ → Option Failures → ℕ → Type 0
WithinLimit limit none n = n ≡ 0
WithinLimit limit (some f) n = (f.count + n ≤ limit) ⊎ ((f.count ≡ limit) × (n ≤ 1))

IsBudget-WithinLimit :
    (limit : ℕ) (b : Buckets) (tally : String → ℕ) (key : String)
    → IsBudget limit b tally
    → WithinLimit limit (find key b) (tally key)
IsBudget-WithinLimit limit b tally key v = by_case (find key b) refl
  where
    by_case : (o : Option Failures) → find key b ≡ o → WithinLimit limit o (tally key)
    by_case none e = ground (arith, v.counted key)
    by_case (some f) e = split (v.sound key f e)
      where
        split : IsSound limit f → WithinLimit limit (some f) (tally key)
        split s = elim (Bool-cases (ltb f.count limit)) [
          | inl h ↦ inl (ground (arith, v.counted key, s.room))
          | inr h ↦ inr (ground (arith, s.within), ground (arith, v.counted key, s.single))
        ]

-- From a new limiter, whatever the interleaving of verifications and clears: for every source and
-- every target, the failures counted and the verifications in flight together stay within the
-- limit, except that one verification may be in flight once the limit is reached; a key without a
-- bucket has none in flight.
pub in_flight_bounds :
    (source_limit target_limit : ℕ) (policy : Policy) (l : Limiter) (w : World)
    (source target : String)
    → make source_limit target_limit policy ≡ some l
    → Reach (record { limiter = l; in_flight = [] }) w
    → WithinLimit w.limiter.source_failure_limit
        (find source w.limiter.sources)
        (by_source w.in_flight source)
      × WithinLimit w.limiter.target_failure_limit
          (find target w.limiter.targets)
          (by_target w.in_flight target)
in_flight_bounds source_limit target_limit policy l w source target e r =
    let c = Reach-IsConsistent r (make-IsConsistent source_limit target_limit policy l e) in
    (
      IsBudget-WithinLimit _ _ (by_source w.in_flight) source c.source_budget,
      IsBudget-WithinLimit _ _ (by_target w.in_flight) target c.target_budget,
    )
