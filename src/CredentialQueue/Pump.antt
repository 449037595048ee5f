-- ===== src/CredentialQueue/Pump.antt =====
-- `Pump`: what no longer counts leaves the queue, and idle workers take the next jobs. `W` is the
-- state of the callbacks; a callback's calls of the queue follow it, and its call of `Pump` does
-- nothing, since `pumping_` is set.
pub mod Keeping
pub mod Pruning
pub mod Admission
use crossdesk_server.Common.{
  ℕ, zero, suc, ◌+◌, ◌*◌, ◌^◌, String, Bool, true, false, ◌&&◌, not, Option, none, some, List, [],
  ◌∷◌, ◌++◌, ◌==◌, ltb, if◌then◌else◌, length, remove, string_key, nat_key, Assoc, find,
  set_ordered, erase,
}
use crossdesk_server.CredentialQueue.{
  Job, Stats, Source, Running, CredentialQueue, bump, decrement, keys_of, slot, start, Call,
  perform_all, perform,
}

-- The callbacks of the jobs. `admit` gives 0, or the seconds to wait.
pub record Callbacks (W : Type 0) : Type 0 where
  pub alive : W → Job → Bool
  pub admit : W → Job → W × ℕ
  pub start : W → Job → ℕ → W × List Call
  pub expire : W → Job → W × List Call

-- What the loop over a source's waiting jobs changes.
pub record Pruned : Type 0 where
  pub outstanding : ℕ
  pub ids : List ℕ
  pub stats : Stats
  pub expired : List Job

pub data Attempt (W : Type 0) : Type 0 where
  skipped : Attempt W
  refused : W → Source → ℕ → Attempt W
  admitted : W → Job → Attempt W

keys_after : String → List String → List String
keys_after last [] = []
keys_after last (key ∷ keys) =
    let rest = keys_after last keys in if string_key.lt last key then key ∷ rest else rest

keys_up_to : String → List String → List String
keys_up_to last [] = []
keys_up_to last (key ∷ keys) =
    let rest = keys_up_to last keys in if string_key.lt last key then rest else key ∷ rest

-- The sources from upper_bound(last) on, and around.
unfoldable pub rotation : String → Assoc String Source → List String
unfolding keys_after keys_up_to keys_of
rotation last sources = keys_after last (keys_of sources) ++ keys_up_to last (keys_of sources)

is_idle : Option (Option Running) → Bool
is_idle (some none) = true
is_idle _ = false

pub delayed : CredentialQueue → ℕ → String → Source → ℕ → CredentialQueue
unfolding bump
delayed q now key s delay = record q {
  sources = set_ordered key (record s { not_before = now + delay * 1000000000 }) q.sources;
  stats = record q.stats { source_waits = bump q.stats.source_waits };
}

module _ {W : Type 0} (callbacks : Callbacks W) (now : ℕ) where
  pub is_current : W → Job → Bool
  is_current w job = callbacks.alive w job && ltb now job.deadline

  pub dropped : W → Job → Pruned → Pruned
  unfolding bump decrement
  dropped w job p =
      let alive = callbacks.alive w job in
      record {
        outstanding = decrement p.outstanding;
        ids = remove job.id p.ids;
        stats =
            if alive
            then record p.stats { expired = bump p.stats.expired }
            else record p.stats { canceled = bump p.stats.canceled };
        expired = if alive then p.expired ++ job ∷ [] else p.expired;
      }

  unfoldable pub prune_jobs : W → List Job → Pruned → List Job × Pruned
  unfolding is_current dropped
  prune_jobs w [] p = ([], p)
  prune_jobs w (job ∷ jobs) p =
      let r = prune_jobs w jobs (if is_current w job then p else dropped w job p) in
      if is_current w job then (job ∷ r.0, r.1) else r

  unfoldable pub stored :
      CredentialQueue → String → Source → List Job × Pruned → CredentialQueue × List Job
  stored q key s (waiting, p) = (
    record q {
      sources =
          if p.outstanding == 0
          then erase key q.sources
          else set_ordered key (record s { waiting = waiting; outstanding = p.outstanding })
              q.sources;
      ids = p.ids;
      stats = p.stats;
    },
    p.expired,
  )

  unfoldable pub prune_source :
      W → String → CredentialQueue × List Job → Option Source → CredentialQueue × List Job
  unfolding prune_jobs stored
  prune_source w key r none = r
  prune_source w key (q, expired) (some s) = stored q key s (
      prune_jobs w s.waiting
        (record { outstanding = s.outstanding; ids = q.ids; stats = q.stats; expired = expired }))

  -- The loop over the sources, by their keys.
  unfoldable pub prune_loop :
      W → List String → CredentialQueue × List Job → CredentialQueue × List Job
  unfolding prune_source
  prune_loop w [] r = r
  prune_loop w (key ∷ keys) r = prune_loop w keys (prune_source w key r (find key r.0.sources))

  unfoldable pub prune : W → CredentialQueue → CredentialQueue × List Job
  unfolding prune_loop keys_of
  prune w q = prune_loop w (keys_of q.sources) (q, [])

  pub call_expired : List Job → W × CredentialQueue → W × CredentialQueue
  unfolding perform_all
  call_expired [] r = r
  call_expired (job ∷ jobs) (w, q) =
      let r = callbacks.expire w job in call_expired jobs (r.0, perform_all q r.1)

  asked : W → Source → List Job → Attempt W
  asked w s [] = skipped
  asked w s (job ∷ jobs) =
      let r = callbacks.admit w job in if ltb 0 r.1 then refused r.0 s r.1 else admitted r.0 job

  unfoldable pub attempt : W → Option Source → Attempt W
  unfolding asked
  attempt w none = skipped
  attempt w (some s) = if ltb now s.not_before then skipped else asked w s s.waiting

  unfoldable pub launch : ℕ → String → W × CredentialQueue → Job → W × CredentialQueue
  unfolding start perform_all
  launch worker key (w, q) job =
      let r = callbacks.start w job worker in (r.0, perform_all (start q now worker key) r.1)

  -- After an attempt; `next` are the attempts that are left.
  unfoldable pub after_attempt :
      ℕ
      → String
      → W × CredentialQueue
      → (W × CredentialQueue → W × CredentialQueue)
      → Attempt W
      → W × CredentialQueue
  unfolding delayed launch
  after_attempt worker key (w, q) next skipped = next (w, q)
  after_attempt worker key (w, q) next (refused v s delay) = next (v, delayed q now key s delay)
  after_attempt worker key (w, q) next (admitted v job) = launch worker key (v, q) job

  -- The attempts for an idle worker.
  unfoldable pub choose : ℕ → List String → W × CredentialQueue → W × CredentialQueue
  unfolding attempt after_attempt
  choose worker [] r = r
  choose worker (key ∷ keys) (w, q) =
      after_attempt worker key (w, q) (λ r. choose worker keys r) (attempt w (find key q.sources))

  unfoldable pub start_workers : ℕ → ℕ → W × CredentialQueue → W × CredentialQueue
  unfolding choose rotation is_idle slot
  start_workers zero worker r = r
  start_workers (suc n) worker (w, q) = start_workers n (worker + 1) (
      if is_idle (slot worker q.running)
      then choose worker (rotation q.last_source q.sources) (w, q)
      else (w, q))

  unfoldable pub pump : W × CredentialQueue → W × CredentialQueue
  unfolding prune call_expired start_workers
  pump (w, q) =
      let p = prune w q in
      let r = call_expired p.1 (w, p.0) in start_workers (length r.1.running) 0 r
