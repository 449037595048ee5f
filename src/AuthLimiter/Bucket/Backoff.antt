-- ===== src/AuthLimiter/Bucket/Backoff.antt =====
-- What a bucket's failures lead to: the cooldowns, and what clearing and success do to them.
use native.Mathlib.Nat.{pow-suc}
use crossdesk_server.Common.{
  ℕ, zero, suc, ◌+◌, ◌*◌, ◌%◌, ◌^◌, ◌≤◌, ◌<◌, min, String, ◌≡◌, sym, subst, ◌∙◌, ◌≢◌, Bool, true,
  false, not, ◌&&◌, some, List, [], ◌∷◌, length, ltb, ◌==◌, ==_refl, refl, nat_key, Bool-cases, inl,
  inr, arith,
}
use crossdesk_server.AuthLimiter.Bucket.{
  Failures, Policy, exponential, Operation, initial_backoff, max_backoff, backoff_recovery,
  decrement, held, reset_expired, record_failure, block, next_backoff, recovery, finished, freed,
  cleared,
}

-- A verification asked for at one time and failed at another: the bucket is reset if it has expired,
-- reserved, reset again if it expired meanwhile, and then the failure is recorded.
pub attempt : ℕ → Operation → ℕ × ℕ → Failures → Failures
attempt limit op (asked, ended) f =
    let g = held asked (some (reset_expired asked f)) in
    finished exponential limit ended g.generation false op g

pub attempt_all : ℕ → Operation → List (ℕ × ℕ) → Failures → Failures
unfolding attempt
attempt_all limit op [] f = f
attempt_all limit op (times ∷ rest) f = attempt_all limit op rest (attempt limit op times f)

abbrev pub capped : ℕ → ℕ
capped n = min (initial_backoff * 2 ^ n) max_backoff

abbrev pub last_time : ℕ → List (ℕ × ℕ) → ℕ
last_time now [] = now
last_time now ((asked, ended) ∷ rest) = last_time ended rest

-- Each verification fails within half an hour of the end of the cooldown before it, the n-th of
-- which began at the given time.
unfoldable pub InTime : ℕ → ℕ → List (ℕ × ℕ) → Type 0
InTime n now [] = Unit
InTime n now ((asked, ended) ∷ rest) =
    (asked ≤ ended) × ((ended < now + capped n + backoff_recovery) × InTime (suc n) ended rest)

-- A bucket whose cooldown is in its n-th doubling, by a failure at the given time.
pub record IsEscalated (limit n now : ℕ) (f : Failures) : Type 0 where
  pub reached : f.count ≡ limit
  pub grown : f.backoff ≡ capped n
  pub blocked : f.blocked_until ≡ now + capped n
  pub kept : f.expires ≡ now + capped n + backoff_recovery

two_pow_pos : (n : ℕ) → 0 < 2 ^ n
two_pow_pos zero = omega arith
two_pow_pos (suc n) = omega (arith, two_pow_pos n, pow-suc 2 n)

doubled :
    (x : ℕ)
    → min (min (initial_backoff * x) max_backoff * 2) max_backoff
      ≡ min (initial_backoff * (x * 2)) max_backoff
doubled x = omega arith

capped-suc : (n : ℕ) → min (capped n * 2) max_backoff ≡ capped (suc n)
capped-suc n = rw (pow-suc 2 n) (doubled (2 ^ n))

capped_pos : (n : ℕ) → 0 < capped n
capped_pos n = omega (arith, two_pow_pos n)

next_backoff-capped : (n b : ℕ) → b ≡ capped n → next_backoff exponential b ≡ capped (suc n)
unfolding next_backoff
next_backoff-capped n b e = ground (arith, capped-suc n, capped_pos n)

module _ (limit now : ℕ) (op : Operation) (f : Failures) where
  block_at_limit :
      (n : ℕ)
      → f.count ≤ limit
      → limit ≤ f.count + 1
      → next_backoff exponential f.backoff ≡ capped n
      → IsEscalated limit n now (record_failure exponential limit now op f)
  unfolding record_failure block recovery
  block_at_limit n h k e = record {
    reached = ground arith;
    grown = ground arith;
    blocked = ground arith;
    kept = ground arith;
  }

-- Before the bucket expires an attempt is the failure that it records.
attempt_unexpired :
    (limit asked ended : ℕ) (op : Operation) (f : Failures)
    → asked ≤ ended
    → ended < f.expires
    → attempt limit op (asked, ended) f
      ≡ record_failure exponential limit ended op (record f { pending = decrement (f.pending + 1) })
unfolding attempt held finished freed reset_expired
attempt_unexpired limit asked ended op f h k =
    let early : ltb asked f.expires ≡ true = ground arith in
    let late : ltb ended f.expires ≡ true = ground arith in
    rw (early, late, ==_refl f.generation) refl

attempt_all-IsEscalated :
    (limit n now : ℕ) (op : Operation) (f : Failures) (rest : List (ℕ × ℕ))
    → InTime n now rest
    → IsEscalated limit n now f
    → IsEscalated limit (n + length rest) (last_time now rest) (attempt_all limit op rest f)
unfolding attempt_all InTime
attempt_all-IsEscalated limit n now op f [] k v =
    subst (λ k. IsEscalated limit k now f) (omega arith) v
attempt_all-IsEscalated limit n now op f ((asked, ended) ∷ rest) k v =
    let g = attempt limit op (asked, ended) f in
    let grown : IsEscalated limit (suc n) ended g =
      rw (attempt_unexpired limit asked ended op f k.0 (omega (arith, k.1.0, v.kept))) (
        block_at_limit limit ended op (record f { pending = decrement (f.pending + 1) }) (suc n)
          (omega (arith, v.reached)) (omega (arith, v.reached))
          (next_backoff-capped n f.backoff v.grown)) in
    subst (λ k. IsEscalated limit k (last_time ended rest) (attempt_all limit op rest g))
      (omega arith) (attempt_all-IsEscalated limit (suc n) ended op g rest k.1.1 grown)

-- After the bucket has expired an attempt starts over.
attempt_expired :
    (limit asked ended : ℕ) (op : Operation) (f : Failures)
    → 1 < limit
    → f.expires ≤ asked
    → asked ≤ ended
    → ((attempt limit op (asked, ended) f).count ≡ 1)
      × ((attempt limit op (asked, ended) f).blocked_until ≡ 0)
unfolding attempt held finished freed reset_expired record_failure
attempt_expired limit asked ended op f h k e = ground (arith, ==_refl f.generation)

-- Under the exponential policy, when the failure that reaches the limit is followed by n more
-- failed verifications, each ended within half an hour of the end of the cooldown before it, the
-- cooldown is 60 seconds times 2 ^ n and at most four hours, from the last failure on, and the
-- bucket is kept half an hour beyond it. A verification asked for after that, if it fails and the
-- limit is above one, is the first failure again and brings no cooldown.
pub backoff_doubles :
    (limit asked now : ℕ) (op : Operation) (f : Failures) (rest : List (ℕ × ℕ)) (later ended : ℕ)
    → f.count ≤ limit
    → limit ≤ f.count + 1
    → f.backoff ≡ 0
    → asked ≤ now
    → now < f.expires
    → InTime 0 now rest
    → 1 < limit
    → last_time now rest + capped (length rest) + backoff_recovery ≤ later
    → later ≤ ended
    → let g = attempt_all limit op ((asked, now) ∷ rest) f in
      let h = attempt limit op (later, ended) g in
      IsEscalated limit (length rest) (last_time now rest) g
      × ((h.count ≡ 1) × (h.blocked_until ≡ 0))
unfolding attempt_all next_backoff
backoff_doubles limit asked now op f rest later ended h k z a b c l x y =
    let first : IsEscalated limit 0 now (attempt limit op (asked, now) f) =
      rw (attempt_unexpired limit asked now op f a b) (
        block_at_limit limit now op (record f { pending = decrement (f.pending + 1) }) 0 h k
          (rw z)) in
    let g = attempt_all limit op rest (attempt limit op (asked, now) f) in
    let v : IsEscalated limit (length rest) (last_time now rest) g =
      subst (λ n. IsEscalated limit n (last_time now rest) g) (omega arith)
        (attempt_all-IsEscalated limit 0 now op (attempt limit op (asked, now) f) rest c first) in
    (v, attempt_expired limit later ended op g l (omega (arith, v.kept, x)) y)

-- A bucket with nothing to remember.
abbrev pub IsBlank : Failures → Type 0
IsBlank f = (f.count ≡ 0) × (f.blocked_until ≡ 0) × (f.backoff ≡ 0)

cleared-IsBlank :
    (matches : String → Bool) (key : String) (now : ℕ) (f g : Failures)
    → matches key ≡ true
    → cleared matches now key f ≡ some g
    → IsBlank g × (g.generation ≡ (f.generation + 1) % 2 ^ 64)
unfolding cleared reset_expired
cleared-IsBlank matches key now f g m e = ground arith

freed-IsBlank : (now : ℕ) (f : Failures) → IsBlank f → IsBlank (freed now f)
unfolding freed reset_expired
freed-IsBlank now f b = ground arith

generation-freed : (now : ℕ) (f : Failures) → (freed now f).generation ≡ f.generation
unfolding freed reset_expired
generation-freed now f = ground arith

next_generation : (n : ℕ) → n < 2 ^ 64 → (n + 1) % 2 ^ 64 ≢ n
next_generation n h = omega arith

finished_stale :
    (policy : Policy) (limit now generation : ℕ) (passed : Bool) (op : Operation) (f : Failures)
    → f.generation ≢ generation
    → finished policy limit now generation passed op f ≡ freed now f
unfolding finished
finished_stale policy limit now generation passed op f h =
    elim (Bool-cases (not passed && (freed now f).generation == generation)) [
      | inl e ↦ absurd (ground (arith, generation-freed now f))
      | inr e ↦ rw e
    ]

-- What other verifications do to a bucket: they are tried and reserved at a time, or they end.
pub data Step : Type 0 where
  reserving : ℕ → Step
  settling : ℕ → ℕ → Bool → Operation → Step

pub take : Policy → ℕ → Step → Failures → Failures
take policy limit (reserving now) f = held now (some (reset_expired now f))
take policy limit (settling now generation passed op) f =
    finished policy limit now generation passed op f

pub take_all : Policy → ℕ → List Step → Failures → Failures
unfolding take
take_all policy limit [] f = f
take_all policy limit (step ∷ steps) f = take_all policy limit steps (take policy limit step f)

generation-record_failure :
    (policy : Policy) (limit now : ℕ) (op : Operation) (f : Failures)
    → (record_failure policy limit now op f).generation ≡ f.generation
unfolding record_failure block
generation-record_failure policy limit now op f = ground arith

generation-finished :
    (policy : Policy) (limit now generation : ℕ) (passed : Bool) (op : Operation) (f : Failures)
    → (finished policy limit now generation passed op f).generation ≡ f.generation
unfolding finished
generation-finished policy limit now generation passed op f =
    elim (Bool-cases (not passed && (freed now f).generation == generation)) [
      | inl e ↦
          rw e
            (generation-record_failure policy limit now op (freed now f) ∙ generation-freed now f)
      | inr e ↦ rw e (generation-freed now f)
    ]

generation-held :
    (now : ℕ) (f : Failures) → (held now (some (reset_expired now f))).generation ≡ f.generation
unfolding held reset_expired
generation-held now f = ground arith

generation-take_all :
    (policy : Policy) (limit : ℕ) (steps : List Step) (f : Failures)
    → (take_all policy limit steps f).generation ≡ f.generation
unfolding take_all take
generation-take_all policy limit [] f = refl
generation-take_all policy limit (reserving now ∷ steps) f =
    generation-take_all policy limit steps _ ∙ generation-held now f
generation-take_all policy limit (settling now generation passed op ∷ steps) f =
    generation-take_all policy limit steps _
    ∙ generation-finished policy limit now generation passed op f

-- A verification that began before its bucket was cleared cannot bring failures back: the clear
-- leaves no failure and no cooldown, and after any reservations and ends of other verifications
-- it makes no difference whether this one fails or passes. If there were none, the bucket then still
-- has no failure and no cooldown.
pub finished-cleared :
    (matches : String → Bool) (key : String) (policy : Policy) (limit now later : ℕ)
    (op : Operation) (steps : List Step) (f g : Failures)
    → matches key ≡ true
    → f.generation < 2 ^ 64
    → cleared matches now key f ≡ some g
    → let h = take_all policy limit steps g in
      IsBlank g
      × ((finished policy limit later f.generation false op h
            ≡ finished policy limit later f.generation true op h)
          × IsBlank (finished policy limit later f.generation false op g))
finished-cleared matches key policy limit now later op steps f g m b e =
    let (blank, next) = cleared-IsBlank matches key now f g m e in
    let h = take_all policy limit steps g in
    let stale : h.generation ≢ f.generation = λ same.
      next_generation f.generation b
        (sym next ∙ sym (generation-take_all policy limit steps g) ∙ same) in
    let stale_now : g.generation ≢ f.generation =
      λ same. next_generation f.generation b (sym next ∙ same) in
    (
      blank,
      (
        finished_stale policy limit later f.generation false op h stale
            ∙ sym (finished_stale policy limit later f.generation true op h stale),
        rw (finished_stale policy limit later f.generation false op g stale_now)
            (freed-IsBlank later g blank),
      ),
    )

-- A passed verification never adds a failure, and leaves an unexpired bucket's failures and
-- cooldown as they are; a failed one that is not stale adds one, up to the limit.
pub count-finished :
    (policy : Policy) (limit now : ℕ) (op : Operation) (f : Failures)
    → now < f.expires
    → f.count ≤ limit
    → ((finished policy limit now f.generation true op f).count ≡ f.count)
      × ((finished policy limit now f.generation true op f).blocked_until ≡ f.blocked_until)
      × ((finished policy limit now f.generation false op f).count ≡ min limit (f.count + 1))
unfolding finished freed reset_expired record_failure block
count-finished policy limit now op f h k = (ground arith, ground arith, ground arith)
