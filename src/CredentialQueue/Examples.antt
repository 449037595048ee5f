-- ===== src/CredentialQueue/Examples.antt =====
-- A run of the credential queue with one worker.
use crossdesk_server.Common.{
  ℕ, ◌+◌, ◌≡◌, ◌⊎◌, refl, subst, true, some, none, List, [], ◌∷◌, find, contains, set_ordered,
  erase, remove, string_key, nat_key,
}
use crossdesk_server.CredentialQueue.{
  Job, CredentialQueue, make, enqueuing, perform, enqueue, start, keys_of,
}
use crossdesk_server.CredentialQueue.Counts.{IsCounted}
use crossdesk_server.CredentialQueue.Pump.{
  Callbacks, rotation, is_current, prune_jobs, stored, prune_source, prune_loop, prune, attempt,
  after_attempt, launch, choose, start_workers, pump,
}
use crossdesk_server.CredentialQueue.Pump.Keeping.{Event, calling, pumping, run, run-IsCounted}
use crossdesk_server.CredentialQueue.Pump.Admission.{Launched, choose-Launched}
use crossdesk_server.CredentialQueue.Pump.Pruning.{jobs_of, passing, prune-waiting}

abbrev login : Job
login = record { id = 1; source = "10.0.0.1"; deadline = 100; queued_at = 0 }

abbrev join : Job
join = record { id = 2; source = "10.0.0.1"; deadline = 100; queued_at = 0 }

abbrev later : Job
later = record { id = 3; source = "10.0.0.1"; deadline = 1000; queued_at = 0 }

abbrev callbacks : Callbacks ℕ
callbacks = record {
  alive = λ w job. true;
  admit = λ w job. (w + 1, 0);
  start = λ w job worker. (w, []);
  expire = λ w job. (w, []);
}

abbrev events : List (Event ℕ)
events =
    calling (enqueuing 0 login)
    ∷ calling (enqueuing 0 join)
    ∷ pumping callbacks 1
    ∷ pumping callbacks 200
    ∷ []

abbrev empty_queue : CredentialQueue
empty_queue = record {
  capacity = 4;
  source_capacity = 2;
  sources = [];
  ids = [];
  running = none ∷ [];
  last_source = "";
  stats = record {
    accepted = 0;
    started = 0;
    completed = 0;
    canceled = 0;
    full = 0;
    source_full = 0;
    expired = 0;
    source_waits = 0;
    max_wait_ms = 0;
    max_execution_ms = 0;
  };
}

made : make 1 4 2 ≡ some empty_queue
unfolding make
made = refl

-- The first job runs, the second expired, and one job was admitted.
left : ((run (0, empty_queue) events).1.ids ≡ 1 ∷ []) × ((run (0, empty_queue) events).0 ≡ 1)
unfolding run perform pump enqueue prune prune_loop prune_source prune_jobs stored start_workers
    choose attempt after_attempt launch start rotation find contains set_ordered erase remove
    keys_of
left = (refl, refl)

run-IsCounted_example : IsCounted (run (0, empty_queue) events).1
run-IsCounted_example = run-IsCounted 1 4 2 empty_queue 0 events made

abbrev waiting : CredentialQueue
waiting = record empty_queue {
  sources =
      ("10.0.0.1", record { waiting = login ∷ later ∷ []; outstanding = 2; not_before = 0 }) ∷ [];
  ids = 1 ∷ 3 ∷ [];
  stats = record empty_queue.stats { accepted = 2 };
}

abbrev two : List (Event ℕ)
two = calling (enqueuing 0 login) ∷ calling (enqueuing 0 later) ∷ []

queued : (run (0, empty_queue) two).1 ≡ waiting
unfolding run perform enqueue find set_ordered contains
queued = refl

waiting-IsCounted : IsCounted waiting
waiting-IsCounted = subst IsCounted queued (run-IsCounted 1 4 2 empty_queue 0 two made)

prune-waiting_example :
    jobs_of (find "10.0.0.1" (prune callbacks 150 0 waiting).0.sources)
    ≡ passing (is_current callbacks 150 0) (login ∷ later ∷ [])
unfolding jobs_of find
prune-waiting_example = prune-waiting callbacks 150 0 waiting "10.0.0.1" waiting-IsCounted

choose-Launched_example :
    let t = choose callbacks 150 0 ("10.0.0.1" ∷ []) (0, waiting) in
    ((t.1.running ≡ waiting.running) × (t.1.ids ≡ waiting.ids))
    ⊎ Launched callbacks 150 0 ("10.0.0.1" ∷ []) waiting t
choose-Launched_example = choose-Launched callbacks 150 0 ("10.0.0.1" ∷ []) (0, waiting)
