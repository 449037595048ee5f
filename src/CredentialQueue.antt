-- ===== src/CredentialQueue.antt =====
-- src/credential_queue.h, class CredentialQueue: jobs that wait for a hashing worker, by source. The
-- callbacks of a job belong to the caller: they are parameters of `pump`, which the child module
-- Pump has, with the start of a job on a worker from here. Statistics wrap at 2 ^ 64; a source's `outstanding` is checked against its
-- capacity before it grows. The clock is steady, so times do not decrease.
pub mod Counts
pub mod Waiting
pub mod Pump
pub mod Calls
mod Examples
use crossdesk_server.Common.{
  ℕ, zero, suc, ◌+◌, ◌-◌, ◌*◌, ◌/◌, ◌%◌, ◌^◌, max, String, Bool, true, false, ◌&&◌, ◌||◌, not,
  Option, or_else, none, some, List, [], ◌∷◌, ◌++◌, ◌==◌, ltb, leb, if◌then◌else◌, length, contains,
  remove, string_key, nat_key, Assoc, find, set_ordered, erase,
}

pub record Job : Type 0 where
  pub id : ℕ
  pub source : String
  pub deadline : ℕ
  pub queued_at : ℕ

pub record Stats : Type 0 where
  pub accepted : ℕ
  pub started : ℕ
  pub completed : ℕ
  pub canceled : ℕ
  pub full : ℕ
  pub source_full : ℕ
  pub expired : ℕ
  pub source_waits : ℕ
  pub max_wait_ms : ℕ
  pub max_execution_ms : ℕ

pub record Source : Type 0 where
  pub waiting : List Job
  pub outstanding : ℕ
  pub not_before : ℕ

pub record Running : Type 0 where
  pub id : ℕ
  pub source : String
  pub started_at : ℕ

pub record CredentialQueue : Type 0 where
  pub capacity : ℕ
  pub source_capacity : ℕ
  pub sources : Assoc String Source
  pub ids : List ℕ
  pub running : List (Option Running)
  pub last_source : String
  pub stats : Stats

bump : ℕ → ℕ
bump n = (n + 1) % 2 ^ 64

-- Unsigned `--n`.
decrement : ℕ → ℕ
decrement n = if n == 0 then 2 ^ 64 - 1 else n - 1

millis : ℕ → ℕ
millis duration = duration / 1000000

idle : ℕ → List (Option Running)
idle zero = []
idle (suc n) = none ∷ idle n

-- The constructor; `none` is its std::invalid_argument.
pub make : ℕ → ℕ → ℕ → Option CredentialQueue
unfolding idle
make workers capacity source_capacity =
    if workers == 0 || capacity == 0 || source_capacity == 0
    then none
    else some (record {
      capacity = capacity;
      source_capacity = source_capacity;
      sources = [];
      ids = [];
      running = idle workers;
      last_source = "";
      stats = record {
        accepted = 0;
        started = 0;
        completed = 0;
        canceled = 0;
        full = 0;
        source_full = 0;
        expired = 0;
        source_waits = 0;
        max_wait_ms = 0;
        max_execution_ms = 0;
      };
    })

is_source_full : CredentialQueue → Option Source → Bool
is_source_full q none = false
is_source_full q (some s) = leb q.source_capacity s.outstanding

-- sources_[key], with the job at its end
with_job : Job → Option Source → Source
with_job job none = record { waiting = job ∷ []; outstanding = 1; not_before = 0 }
with_job job (some s) = record s {
  waiting = s.waiting ++ job ∷ [];
  outstanding = s.outstanding + 1;
}

accept : CredentialQueue → Job → Option Source → CredentialQueue × Bool
unfolding is_source_full with_job bump
accept q job found =
    if is_source_full q found
    then (record q { stats = record q.stats { source_full = bump q.stats.source_full } }, false)
    else (
      record q {
        ids = q.ids ++ job.id ∷ [];
        sources = set_ordered job.source (with_job job found) q.sources;
        stats = record q.stats { accepted = bump q.stats.accepted };
      },
      true,
    )

named : Job → Job
named job = if job.source == "" then record job { source = "unknown" } else job

pub enqueue : CredentialQueue → ℕ → Job → CredentialQueue × Bool
unfolding accept named
enqueue q now job =
    let j = named (record job { queued_at = now }) in
    if leb q.capacity (length q.ids)
    then (record q { stats = record q.stats { full = bump q.stats.full } }, false)
    else if contains q.ids job.id
    then (q, false)
    else accept q j (find j.source q.sources)

kept : Job → Option (List Job) → Option (List Job)
kept job none = none
kept job (some rest) = some (job ∷ rest)

-- find_if and erase on the waiting jobs; `none` when no job has the id
without_job : ℕ → List Job → Option (List Job)
unfolding kept
without_job id [] = none
without_job id (job ∷ jobs) =
    let rest = kept job (without_job id jobs) in if job.id == id then some jobs else rest

-- `if (--source.outstanding == 0) sources_.erase(it)`
pub release : String → Source → Assoc String Source → Assoc String Source
unfolding decrement
release key s sources =
    let left = decrement s.outstanding in
    if left == 0
    then erase key sources
    else set_ordered key (record s { outstanding = left }) sources

canceled_in : CredentialQueue → ℕ → String → Source → Option (List Job) → Option CredentialQueue
unfolding release bump
canceled_in q id key s none = none
canceled_in q id key s (some waiting) = some (record q {
  ids = remove id q.ids;
  sources = release key (record s { waiting = waiting }) q.sources;
  stats = record q.stats { canceled = bump q.stats.canceled };
})

cancel_source : CredentialQueue → ℕ → String → Option Source → Option CredentialQueue
unfolding canceled_in without_job
cancel_source q id key none = none
cancel_source q id key (some s) = canceled_in q id key s (without_job id s.waiting)

first_of : Option CredentialQueue → CredentialQueue → CredentialQueue
first_of (some q) rest = q
first_of none rest = rest

-- The loop over the sources, by their keys.
cancel_loop : CredentialQueue → ℕ → List String → CredentialQueue
unfolding cancel_source first_of
cancel_loop q id [] = q
cancel_loop q id (key ∷ keys) =
    first_of (cancel_source q id key (find key q.sources)) (cancel_loop q id keys)

keys_of : Assoc String Source → List String
keys_of [] = []
keys_of ((key, s) ∷ rest) = key ∷ keys_of rest

pub cancel : CredentialQueue → ℕ → CredentialQueue
unfolding cancel_loop keys_of
cancel q id = cancel_loop q id (keys_of q.sources)

-- running_.at(worker); the outer `none` is its std::out_of_range
pub slot : ℕ → List (Option Running) → Option (Option Running)
slot worker [] = none
slot zero (r ∷ running) = some r
slot (suc worker) (r ∷ running) = slot worker running

pub set_slot : ℕ → Option Running → List (Option Running) → List (Option Running)
set_slot worker value [] = []
set_slot zero value (r ∷ running) = value ∷ running
set_slot (suc worker) value (r ∷ running) = r ∷ set_slot worker value running

completed_of : CredentialQueue → ℕ → ℕ → Running → Option Source → Option CredentialQueue
unfolding release bump millis set_slot
completed_of q now worker active none = none
completed_of q now worker active (some s) = some (record q {
  ids = remove active.id q.ids;
  sources = release active.source s q.sources;
  running = set_slot worker none q.running;
  stats = record q.stats {
    max_execution_ms = max q.stats.max_execution_ms (millis (now - active.started_at));
    completed = bump q.stats.completed;
  };
})

complete_slot : CredentialQueue → ℕ → ℕ → Option (Option Running) → Option CredentialQueue
unfolding completed_of
complete_slot q now worker none = none
complete_slot q now worker (some none) = none
complete_slot q now worker (some (some active)) =
    completed_of q now worker active (find active.source q.sources)

-- `none` is an exception, or the source of the job missing.
pub complete : CredentialQueue → ℕ → ℕ → Option CredentialQueue
unfolding complete_slot slot
complete q now worker = complete_slot q now worker (slot worker q.running)

started_on : CredentialQueue → ℕ → ℕ → String → Source → List Job → CredentialQueue
unfolding set_slot bump millis
started_on q now worker key s [] = q
started_on q now worker key s (job ∷ jobs) = record q {
  sources = set_ordered key (record s { waiting = jobs }) q.sources;
  last_source = key;
  running =
      set_slot worker (some (record { id = job.id; source = job.source; started_at = now }))
        q.running;
  stats = record q.stats {
    max_wait_ms = max q.stats.max_wait_ms (millis (now - job.queued_at));
    started = bump q.stats.started;
  };
}

start_found : CredentialQueue → ℕ → ℕ → String → Option Source → CredentialQueue
unfolding started_on
start_found q now worker key none = q
start_found q now worker key (some s) = started_on q now worker key s s.waiting

start_idle : CredentialQueue → ℕ → ℕ → String → Option (Option Running) → CredentialQueue
unfolding start_found
start_idle q now worker key none = q
start_idle q now worker key (some (some active)) = q
start_idle q now worker key (some none) = start_found q now worker key (find key q.sources)

-- What `Pump` does on an idle worker and a source whose first job was admitted.
pub start : CredentialQueue → ℕ → ℕ → String → CredentialQueue
unfolding start_idle slot
start q now worker key = start_idle q now worker key (slot worker q.running)

pub data Call : Type 0 where
  enqueuing : ℕ → Job → Call
  canceling : ℕ → Call
  completing : ℕ → ℕ → Call

-- A call that throws changes nothing.
pub perform : CredentialQueue → Call → CredentialQueue
perform q (enqueuing now job) = (enqueue q now job).0
perform q (canceling id) = cancel q id
perform q (completing now worker) = or_else (complete q now worker) q

pub perform_all : CredentialQueue → List Call → CredentialQueue
unfolding perform
perform_all q [] = q
perform_all q (call ∷ calls) = perform_all (perform q call) calls
