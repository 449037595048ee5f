-- ===== src/CredentialQueue/Pump/Pruning.antt =====
-- What `Pump` lets wait, before it calls any callback but `alive`.
use crossdesk_server.Common.{
  ℕ, ◌+◌, ◌≡◌, refl, ap, ◌∙◌, subst, String, Bool, true, false, ◌||◌, Option, none, some, List, [],
  ◌∷◌, ◌==◌, if◌then◌else◌, string_key, nat_key, Assoc, find, find-set_ordered, find-erase,
  contains, length, Bool-cases, inl, inr, arith,
}
use crossdesk_server.CredentialQueue.{Job, Source, CredentialQueue, keys_of}
use crossdesk_server.CredentialQueue.Counts.{running_of, IsCounted, found-counted}
use crossdesk_server.CredentialQueue.Pump.Keeping.{prune_jobs-counted, prune_source-IsCounted}
use crossdesk_server.CredentialQueue.Pump.{
  Callbacks, Pruned, is_current, dropped, prune_jobs, stored, prune_source, prune_loop, prune,
}

-- The jobs of the first list, in their order, that pass a test.
pub passing : (Job → Bool) → List Job → List Job
passing f [] = []
passing f (job ∷ jobs) = let rest = passing f jobs in if f job then job ∷ rest else rest

unfoldable pub jobs_of : Option Source → List Job
jobs_of none = []
jobs_of (some s) = s.waiting

module _ {W : Type 0} (callbacks : Callbacks W) (now : ℕ) where
  prune_jobs-passing :
      (w : W) (jobs : List Job) (p : Pruned)
      → (prune_jobs callbacks now w jobs p).0 ≡ passing (is_current callbacks now w) jobs
  unfolding prune_jobs passing
  prune_jobs-passing w [] p = refl
  prune_jobs-passing w (job ∷ jobs) p = elim (Bool-cases (is_current callbacks now w job)) [
    | inl e ↦ rw (e, prune_jobs-passing w jobs p) refl
    | inr e ↦ rw (e, prune_jobs-passing w jobs (dropped callbacks now w job p)) refl
  ]

  passing-passing : (f : Job → Bool) (jobs : List Job) → passing f (passing f jobs) ≡ passing f jobs
  unfolding passing
  passing-passing f [] = refl
  passing-passing f (job ∷ jobs) = elim (Bool-cases (f job)) [
    | inl e ↦ rw (e, e, passing-passing f jobs) refl
    | inr e ↦ rw (e, passing-passing f jobs) refl
  ]

  -- The waiting jobs of a source, pruned or not.
  abbrev pruned : W → Bool → List Job → List Job
  pruned w b jobs = if b then passing (is_current callbacks now w) jobs else jobs

  no_jobs : (jobs : List Job) (n : ℕ) → 0 ≡ length jobs + n → [] ≡ jobs
  no_jobs [] n e = refl
  no_jobs (job ∷ jobs) n e = absurd (omega (arith, e))

  stored-waiting :
      (q : CredentialQueue) (key k : String) (s : Source) (waiting : List Job) (p : Pruned) (n : ℕ)
      → p.outstanding ≡ length waiting + n
      → jobs_of (find k (stored callbacks now q key s (waiting, p)).0.sources)
        ≡ (if key == k then waiting else jobs_of (find k q.sources))
  unfolding stored jobs_of
  stored-waiting q key k s waiting p n c = elim (Bool-cases (p.outstanding == 0)) [
    | inl e ↦
        rw (e, find-erase key k q.sources)
          (elim (Bool-cases (key == k)) [
            | inl f ↦ rw f (no_jobs waiting n (ground (arith, e, c)))
            | inr f ↦ rw f refl
          ])
    | inr e ↦
        rw
          (
            e,
            find-set_ordered key k (record s { waiting = waiting; outstanding = p.outstanding })
                q.sources,
          )
          (elim (Bool-cases (key == k)) [ inl f ↦ rw f refl | inr f ↦ rw f refl ])
  ]

  source-waiting :
      (w : W) (key k : String) (r : CredentialQueue × List Job) (o : Option Source)
      → IsCounted r.0
      → find key r.0.sources ≡ o
      → jobs_of (find k (prune_source callbacks now w key r o).0.sources)
        ≡ pruned w (key == k) (jobs_of (find k r.0.sources))
  unfolding prune_source jobs_of passing
  source-waiting w key k r none v f = elim (Bool-cases (key == k)) [
    | inl e ↦
        let same : key ≡ k = (string_key.beq_iff key k).0 e in
        let h : find k r.0.sources ≡ none = subst (λ i. find i r.0.sources ≡ none) same f in
        rw (e, h) refl
    | inr e ↦ rw e refl
  ]
  source-waiting w key k (q, expired) (some s) v f =
      let (c, (least, (most, all))) =
        found-counted q.source_capacity q.running key _ s (v.counted key) f in
      let p : Pruned = record {
        outstanding = s.outstanding;
        ids = q.ids;
        stats = q.stats;
        expired = expired;
      } in
      let r = prune_jobs callbacks now w s.waiting p in
      let (d, rest) =
        prune_jobs-counted callbacks now w key s.waiting p (running_of key q.running) all c in
      stored-waiting q key k s r.0 r.1 (running_of key q.running) d ∙ elim (Bool-cases (key == k)) [
        | inl e ↦
            let same : key ≡ k = (string_key.beq_iff key k).0 e in
            let h : find k q.sources ≡ some s = subst (λ i. find i q.sources ≡ some s) same f in
            rw (e, h) (prune_jobs-passing w s.waiting p)
        | inr e ↦ rw e refl
      ]

  loop-waiting :
      (w : W) (k : String) (keys : List String) (r : CredentialQueue × List Job)
      → IsCounted r.0
      → jobs_of (find k (prune_loop callbacks now w keys r).0.sources)
        ≡ pruned w (contains keys k) (jobs_of (find k r.0.sources))
  unfolding prune_loop contains
  loop-waiting w k [] r v = refl
  loop-waiting w k (key ∷ keys) r v =
      let o = find key r.0.sources in
      loop-waiting w k keys (prune_source callbacks now w key r o)
        (prune_source-IsCounted callbacks now w key r o v refl)
      ∙ ap (pruned w (contains keys k)) (source-waiting w key k r o v refl)
      ∙ twice (key == k) (contains keys k) (jobs_of (find k r.0.sources))
    where
      twice : (a b : Bool) (jobs : List Job) → pruned w b (pruned w a jobs) ≡ pruned w (a || b) jobs
      twice true true jobs = passing-passing (is_current callbacks now w) jobs
      twice true false jobs = refl
      twice false b jobs = refl

  listed :
      (w : W) (k : String) (m : Assoc String Source)
      → pruned w (contains (keys_of m) k) (jobs_of (find k m))
        ≡ passing (is_current callbacks now w) (jobs_of (find k m))
  unfolding contains keys_of find jobs_of passing
  listed w k [] = refl
  listed w k ((key, s) ∷ m) = elim (Bool-cases (key == k)) [
    | inl e ↦ rw e refl
    | inr e ↦ rw e (listed w k m)
  ]

  -- When a queue's counts are right, the waiting jobs of each source that `Pump` keeps are exactly
  -- those that are alive and before their deadline, in the order they had.
  pub prune-waiting :
      (w : W) (q : CredentialQueue) (key : String)
      → IsCounted q
      → jobs_of (find key (prune callbacks now w q).0.sources)
        ≡ passing (is_current callbacks now w) (jobs_of (find key q.sources))
  unfolding prune
  prune-waiting w q key v =
      loop-waiting w key (keys_of q.sources) (q, []) v ∙ listed w key q.sources
