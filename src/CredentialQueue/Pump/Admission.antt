-- ===== src/CredentialQueue/Pump/Admission.antt =====
-- When `Pump` starts a job on an idle worker.
use crossdesk_server.Common.{
  ℕ, ◌≤◌, ◌≡◌, ◌∙◌, ◌⊎◌, refl, ap, String, Option, none, some, List, [], ◌∷◌, ltb, contains,
  string_key, nat_key, find, Bool-cases, true, inl, inr, ==_refl, arith,
}
use crossdesk_server.CredentialQueue.{Job, Source, CredentialQueue}
use crossdesk_server.CredentialQueue.Pump.{
  Callbacks, Attempt, skipped, refused, admitted, delayed, asked, attempt, launch, after_attempt,
  choose,
}

-- A job was started for a source, in a state that the attempts before it left.
pub record Launched {W : Type 0} (callbacks : Callbacks W) (now worker : ℕ) (keys : List String)
    (q : CredentialQueue) (t : W × CredentialQueue) : Type 0 where
  pub key : String
  pub job : Job
  pub others : List Job
  pub source : Source
  pub asking : W
  pub state : W × CredentialQueue
  pub listed : contains keys key ≡ true
  pub found : find key state.1.sources ≡ some source
  pub first : source.waiting ≡ job ∷ others
  pub allowed : source.not_before ≤ now
  pub passed : callbacks.admit asking job ≡ (state.0, 0)
  pub running : state.1.running ≡ q.running
  pub ids : state.1.ids ≡ q.ids
  pub started : t ≡ launch callbacks now worker key state job

module _ {W : Type 0} (callbacks : Callbacks W) (now : ℕ) where
  -- What an attempt tells of the source that was asked.
  IsAnswer : W → Option Source → Attempt W → Type 0
  IsAnswer w o skipped = Unit
  IsAnswer w o (refused v s delay) = Unit
  IsAnswer w o (admitted v job) =
      (s : Source) × ((others : List Job) × ((o ≡ some s)
          × ((s.waiting ≡ job ∷ others)
              × ((s.not_before ≤ now) × (callbacks.admit w job ≡ (v, 0))))))

  attempt-IsAnswer : (w : W) (o : Option Source) → IsAnswer w o (attempt callbacks now w o)
  unfolding attempt asked IsAnswer
  attempt-IsAnswer w none = tt
  attempt-IsAnswer w (some s) = elim (Bool-cases (ltb now s.not_before)) [
    | inl e ↦ rw e tt
    | inr e ↦ rw e (asked_first s.waiting refl (ground (arith, e)))
  ]
    where
      asked_first :
          (jobs : List Job)
          → s.waiting ≡ jobs
          → s.not_before ≤ now
          → IsAnswer w (some s) (asked callbacks now w s jobs)
      asked_first [] f g = tt
      asked_first (job ∷ jobs) f g = elim (Bool-cases (ltb 0 (callbacks.admit w job).1)) [
        | inl e ↦ rw e tt
        | inr e ↦ rw e (
          s,
          (
            jobs,
            (refl, (f, (g, ap (λ (n : ℕ). ((callbacks.admit w job).0, n)) (ground (arith, e))))),
          ),
        )
      ]

  -- No worker took a job, or a job was started.
  abbrev Outcome : ℕ → List String → CredentialQueue → W × CredentialQueue → Type 0
  Outcome worker keys q t =
      ((t.1.running ≡ q.running) × (t.1.ids ≡ q.ids)) ⊎ Launched callbacks now worker keys q t

  later :
      (worker : ℕ) (key : String) (keys : List String) (p q : CredentialQueue)
      (t : W × CredentialQueue)
      → p.running ≡ q.running
      → p.ids ≡ q.ids
      → Outcome worker keys p t
      → Outcome worker (key ∷ keys) q t
  unfolding contains
  later worker key keys p q t e f (inl (g, h)) = inl (g ∙ e, h ∙ f)
  later worker key keys p q t e f (inr v) = inr (record {
    key = v.key;
    job = v.job;
    others = v.others;
    source = v.source;
    asking = v.asking;
    state = v.state;
    listed = ground (arith, v.listed);
    found = v.found;
    first = v.first;
    allowed = v.allowed;
    passed = v.passed;
    running = v.running ∙ e;
    ids = v.ids ∙ f;
    started = v.started;
  })

  after_attempt-Outcome :
      (worker : ℕ) (key : String) (keys : List String) (w : W) (q : CredentialQueue) (a : Attempt W)
      (next : W × CredentialQueue → W × CredentialQueue)
      → IsAnswer w (find key q.sources) a
      → ((u : W × CredentialQueue) → Outcome worker keys u.1 (next u))
      → Outcome worker (key ∷ keys) q (after_attempt callbacks now worker key (w, q) next a)
  unfolding after_attempt IsAnswer delayed contains
  after_attempt-Outcome worker key keys w q skipped next x k =
      later worker key keys q q (next (w, q)) refl refl (k (w, q))
  after_attempt-Outcome worker key keys w q (refused v s delay) next x k =
      let u : W × CredentialQueue = (v, delayed q now key s delay) in
      later worker key keys u.1 q (next u) refl refl (k u)
  after_attempt-Outcome worker key keys w q (admitted v job) next (s, (jobs, (f, (g, (h, e))))) k =
      inr (record {
        key = key;
        job = job;
        others = jobs;
        source = s;
        asking = w;
        state = (v, q);
        listed = ground (arith, ==_refl key);
        found = f;
        first = g;
        allowed = h;
        passed = e;
        running = refl;
        ids = refl;
        started = refl;
      })

  -- For an idle worker, either the attempts change neither what runs nor the queue's ids, or the job
  -- that is started is the first that waits for a source that is not held back, and its callback
  -- has just admitted it without delay. Until then nothing that runs has changed.
  pub choose-Launched :
      (worker : ℕ) (keys : List String) (r : W × CredentialQueue)
      → let t = choose callbacks now worker keys r in
        ((t.1.running ≡ r.1.running) × (t.1.ids ≡ r.1.ids))
        ⊎ Launched callbacks now worker keys r.1 t
  unfolding choose
  choose-Launched worker [] r = inl (refl, refl)
  choose-Launched worker (key ∷ keys) (w, q) =
      after_attempt-Outcome worker key keys w q (attempt callbacks now w (find key q.sources))
        (λ r. choose callbacks now worker keys r) (attempt-IsAnswer w (find key q.sources))
        (λ u. choose-Launched worker keys u)
