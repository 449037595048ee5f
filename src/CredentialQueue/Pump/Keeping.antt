-- ===== src/CredentialQueue/Pump/Keeping.antt =====
-- `Pump` and every other call keep the counts of the credential queue.
use crossdesk_server.Common.{
  ℕ, zero, suc, ◌+◌, ◌≤◌, ◌≡◌, refl, String, Bool, true, false, Option, none, some, List, [], ◌∷◌,
  ◌==◌, if◌then◌else◌, ltb, length, string_key, nat_key, find, Bool-cases, inl, inr, arith,
}
use crossdesk_server.CredentialQueue.{
  Job, Source, CredentialQueue, make, decrement, keys_of, slot, start, Call, perform,
}
use crossdesk_server.CredentialQueue.Counts.{
  running_of, AllOf, present, IsCounted, set-counted, erase-counted, found-counted,
}
use crossdesk_server.CredentialQueue.Waiting.{length-remove-le}
use crossdesk_server.CredentialQueue.Calls.{
  start-IsCounted, perform-IsCounted, perform_all-IsCounted, make-IsCounted,
}
use crossdesk_server.CredentialQueue.Pump.{
  Callbacks, Pruned, Attempt, skipped, refused, admitted, rotation, is_idle, delayed, is_current,
  dropped, prune_jobs, stored, prune_source, prune_loop, prune, call_expired, asked, attempt,
  launch, after_attempt, choose, start_workers, pump,
}

module _ {W : Type 0} (callbacks : Callbacks W) (now : ℕ) where
  dropped_one :
      (w : W) (job : Job) (p : Pruned) (n : ℕ)
      → p.outstanding ≡ suc n
      → let r = dropped callbacks now w job p in
        (r.outstanding ≡ n) × ((r.outstanding ≤ p.outstanding) × (length r.ids ≤ length p.ids))
  unfolding dropped decrement
  dropped_one w job p n e = (ground (arith, e), (ground (arith, e), length-remove-le job.id p.ids))

  pub prune_jobs-counted :
      (w : W) (key : String) (jobs : List Job) (p : Pruned) (n : ℕ)
      → AllOf key jobs
      → p.outstanding ≡ length jobs + n
      → let r = prune_jobs callbacks now w jobs p in
        (r.1.outstanding ≡ length r.0 + n)
        × (AllOf key r.0 × ((r.1.outstanding ≤ p.outstanding) × (length r.1.ids ≤ length p.ids)))
  unfolding prune_jobs AllOf
  prune_jobs-counted w key [] p n a e = (e, (a, (omega arith, omega arith)))
  prune_jobs-counted w key (job ∷ jobs) p n a e =
      elim (Bool-cases (is_current callbacks now w job)) [
        | inl f ↦ rw f (
            let (c, (all, (most, ids))) =
              prune_jobs-counted w key jobs p (suc n) a.1 (omega (arith, e)) in
            (omega (arith, c), ((a.0, all), (most, ids))))
        | inr f ↦ rw f (
            let p' = dropped callbacks now w job p in
            let (c, (all, (most, ids))) =
              prune_jobs-counted w key jobs p' n a.1
                (dropped_one w job p (length jobs + n) (omega (arith, e))).0 in
            let (less, fewer) = (dropped_one w job p (length jobs + n) (omega (arith, e))).1 in
            (c, (all, (omega (arith, most, less), omega (arith, ids, fewer)))))
      ]

  stored-IsCounted :
      (q : CredentialQueue) (key : String) (s : Source) (waiting : List Job) (p : Pruned)
      → IsCounted q
      → p.outstanding ≡ length waiting + running_of key q.running
      → p.outstanding ≤ q.source_capacity
      → AllOf key waiting
      → length p.ids ≤ length q.ids
      → IsCounted (stored callbacks now q key s (waiting, p)).0
  unfolding stored
  stored-IsCounted q key s waiting p v c most all ids = elim (Bool-cases (p.outstanding == 0)) [
    | inl e ↦ rw e (record {
      counted =
          erase-counted q.source_capacity q.running key q.sources (ground (arith, e, c))
            (λ k d. v.counted k);
      positive = v.positive;
      bounded = omega (arith, ids, v.bounded);
    })
    | inr e ↦ rw e (record {
      counted =
          set-counted q.source_capacity q.running key
            (record s { waiting = waiting; outstanding = p.outstanding }) q.sources
            (present _ refl c (ground (arith, e)) most all) (λ k d. v.counted k);
      positive = v.positive;
      bounded = omega (arith, ids, v.bounded);
    })
  ]

  pub prune_source-IsCounted :
      (w : W) (key : String) (r : CredentialQueue × List Job) (o : Option Source)
      → IsCounted r.0
      → find key r.0.sources ≡ o
      → IsCounted (prune_source callbacks now w key r o).0
  unfolding prune_source
  prune_source-IsCounted w key r none v f = v
  prune_source-IsCounted w key (q, expired) (some s) v f =
      let (c, (least, (most, all))) =
        found-counted q.source_capacity q.running key _ s (v.counted key) f in
      let p : Pruned = record {
        outstanding = s.outstanding;
        ids = q.ids;
        stats = q.stats;
        expired = expired;
      } in
      let (d, (kept, (less, ids))) =
        prune_jobs-counted w key s.waiting p (running_of key q.running) all c in
      let r = prune_jobs callbacks now w s.waiting p in
      stored-IsCounted q key s r.0 r.1 v d (omega (arith, less, most)) kept ids

  prune_loop-IsCounted :
      (w : W) (keys : List String) (r : CredentialQueue × List Job)
      → IsCounted r.0
      → IsCounted (prune_loop callbacks now w keys r).0
  unfolding prune_loop
  prune_loop-IsCounted w [] r v = v
  prune_loop-IsCounted w (key ∷ keys) r v =
      prune_loop-IsCounted w keys _ (prune_source-IsCounted w key r (find key r.0.sources) v refl)

  expired-IsCounted :
      (jobs : List Job) (r : W × CredentialQueue)
      → IsCounted r.1
      → IsCounted (call_expired callbacks now jobs r).1
  unfolding call_expired
  expired-IsCounted [] r v = v
  expired-IsCounted (job ∷ jobs) (w, q) v =
      expired-IsCounted jobs _ (perform_all-IsCounted q (callbacks.expire w job).1 v)

  -- A source that was asked is one of the queue.
  IsAsked : Option Source → Attempt W → Type 0
  IsAsked o skipped = Unit
  IsAsked o (refused v s delay) = o ≡ some s
  IsAsked o (admitted v job) = Unit

  attempt-IsAsked : (w : W) (o : Option Source) → IsAsked o (attempt callbacks now w o)
  unfolding attempt asked IsAsked
  attempt-IsAsked w none = tt
  attempt-IsAsked w (some s) = elim (Bool-cases (ltb now s.not_before)) [
    | inl e ↦ rw e tt
    | inr e ↦ rw e (first s.waiting)
  ]
    where
      first : (jobs : List Job) → IsAsked (some s) (asked callbacks now w s jobs)
      first [] = tt
      first (job ∷ jobs) = elim (Bool-cases (ltb 0 (callbacks.admit w job).1)) [
        | inl e ↦ rw e refl
        | inr e ↦ rw e tt
      ]

  delayed-IsCounted :
      (q : CredentialQueue) (key : String) (s : Source) (delay : ℕ)
      → IsCounted q
      → find key q.sources ≡ some s
      → IsCounted (delayed q now key s delay)
  unfolding delayed
  delayed-IsCounted q key s delay v f =
      let (c, (least, (most, all))) =
        found-counted q.source_capacity q.running key _ s (v.counted key) f in
      record {
        counted =
            set-counted q.source_capacity q.running key _ q.sources
              (present _ refl c least most all) (λ k d. v.counted k);
        positive = v.positive;
        bounded = v.bounded;
      }

  after_attempt-IsCounted :
      (worker : ℕ) (key : String) (r : W × CredentialQueue)
      (next : W × CredentialQueue → W × CredentialQueue) (a : Attempt W)
      → IsCounted r.1
      → IsAsked (find key r.1.sources) a
      → ((u : W × CredentialQueue) → IsCounted u.1 → IsCounted (next u).1)
      → IsCounted (after_attempt callbacks now worker key r next a).1
  unfolding after_attempt launch IsAsked
  after_attempt-IsCounted worker key (w, q) next skipped v x k = k (w, q) v
  after_attempt-IsCounted worker key (w, q) next (refused u s delay) v x k =
      k (u, delayed q now key s delay) (delayed-IsCounted q key s delay v x)
  after_attempt-IsCounted worker key (w, q) next (admitted u job) v x k =
      perform_all-IsCounted (start q now worker key) (callbacks.start u job worker).1
        (start-IsCounted q now worker key v)

  choose-IsCounted :
      (worker : ℕ) (keys : List String) (r : W × CredentialQueue)
      → IsCounted r.1
      → IsCounted (choose callbacks now worker keys r).1
  unfolding choose
  choose-IsCounted worker [] r v = v
  choose-IsCounted worker (key ∷ keys) (w, q) v =
      after_attempt-IsCounted worker key (w, q) (λ r. choose callbacks now worker keys r)
        (attempt callbacks now w (find key q.sources)) v (attempt-IsAsked w (find key q.sources))
        (λ r u. choose-IsCounted worker keys r u)

  workers-IsCounted :
      (n worker : ℕ) (r : W × CredentialQueue)
      → IsCounted r.1
      → IsCounted (start_workers callbacks now n worker r).1
  unfolding start_workers
  workers-IsCounted zero worker r v = v
  workers-IsCounted (suc n) worker (w, q) v =
      workers-IsCounted n (worker + 1) _ (chosen (is_idle (slot worker q.running)))
    where
      chosen :
          (b : Bool)
          → IsCounted
              (if b
                then choose callbacks now worker (rotation q.last_source q.sources) (w, q)
                else (w, q)).1
      chosen true = choose-IsCounted worker (rotation q.last_source q.sources) (w, q) v
      chosen false = v

  pump-IsCounted : (r : W × CredentialQueue) → IsCounted r.1 → IsCounted (pump callbacks now r).1
  unfolding pump prune
  pump-IsCounted (w, q) v =
      let p = prune callbacks now w q in
      let r = call_expired callbacks now p.1 (w, p.0) in
      workers-IsCounted (length r.1.running) 0 r
        (expired-IsCounted p.1 (w, p.0) (prune_loop-IsCounted w (keys_of q.sources) (q, []) v))

-- A call of the queue; each `Pump` has its own callbacks and time.
pub data Event (W : Type 0) : Type 0 where
  calling : Call → Event W
  pumping : Callbacks W → ℕ → Event W

unfoldable pub run : {W : Type 0} → W × CredentialQueue → List (Event W) → W × CredentialQueue
unfolding perform pump
run r [] = r
run (w, q) (calling call ∷ events) = run (w, perform q call) events
run r (pumping callbacks now ∷ events) = run (pump callbacks now r) events

events-IsCounted :
    {W : Type 0} (events : List (Event W)) (r : W × CredentialQueue)
    → IsCounted r.1
    → IsCounted (run r events).1
unfolding run
events-IsCounted [] r v = v
events-IsCounted (calling call ∷ events) (w, q) v =
    events-IsCounted events (w, perform q call) (perform-IsCounted q call v)
events-IsCounted (pumping callbacks now ∷ events) r v =
    events-IsCounted events (pump callbacks now r) (pump-IsCounted callbacks now r v)

-- Whatever the calls on a new queue, `Pump` with any callbacks among them, a source counts exactly
-- its jobs that wait and its jobs that run, at least one and at most the capacity of a source;
-- without an entry no job of the source runs; and no more ids are kept than the queue's capacity.
pub run-IsCounted :
    {W : Type 0} (workers capacity source_capacity : ℕ) (q : CredentialQueue) (w : W)
    (events : List (Event W))
    → make workers capacity source_capacity ≡ some q
    → IsCounted (run (w, q) events).1
run-IsCounted workers capacity source_capacity q w events h =
    events-IsCounted events (w, q) (make-IsCounted workers capacity source_capacity q h)
