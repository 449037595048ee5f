-- ===== src/Executor.antt =====
-- src/bounded_executor.h: the FIFO of jobs and the thread that runs them.
-- `fails` tells which jobs throw. `ran` and `errors` list the jobs that ran and those whose
-- exception went to `on_error_`; `returned` tells that `Run` has returned. Each step is what the
-- code does under one hold of `mutex_`.
pub mod Order
mod Examples
use crossdesk_server.Common.{
  ℕ, zero, suc, ◌+◌, ◌%◌, ◌^◌, Bool, true, false, ◌||◌, List, [], ◌∷◌, ◌++◌, leb, if◌then◌else◌,
  length,
}

pub record Executor {ℓ} (Job : Type ℓ) : Type ℓ where
  pub jobs : List Job
  pub stopping : Bool
  pub ran : List Job
  pub errors : List Job
  pub returned : Bool

pub data Event {ℓ} (Job : Type ℓ) : Type ℓ where
  submitted : Job → Event Job
  stop_requested : Event Job
  worker_turn : Event Job

abbrev pub new_executor {ℓ} : {Job : Type ℓ} → Executor Job
new_executor = record { jobs = []; stopping = false; ran = []; errors = []; returned = false }

-- The locked part of `Stop`; joining the thread is the turns of the worker that follow.
pub request_stop {ℓ} : {Job : Type ℓ} → Executor Job → Executor Job
request_stop e = record e { stopping = true }

module _ {ℓ} {Job : Type ℓ} (capacity reserve : ℕ) where
  pub submit : Executor Job → Job → Bool → Executor Job × Bool
  submit e job lifecycle =
      if e.stopping
        || leb ((capacity + (if lifecycle then reserve else 0)) % 2 ^ 64) (length e.jobs)
      then (e, false)
      else (record e { jobs = e.jobs ++ job ∷ [] }, true)

module _ {ℓ} {Job : Type ℓ} (fails : Job → Bool) where
  run_front : Executor Job → List Job → Executor Job
  run_front e [] = record e { returned = if e.stopping then true else e.returned }
  run_front e (job ∷ rest) = record e {
    jobs = rest;
    ran = e.ran ++ job ∷ [];
    errors = if fails job then e.errors ++ job ∷ [] else e.errors;
  }

  unless_returned : Bool → Executor Job → Executor Job
  unfolding run_front
  unless_returned true e = e
  unless_returned false e = run_front e e.jobs

  -- One round of the loop of `Run`, or no change while the wait does not end.
  pub run_round : Executor Job → Executor Job
  unfolding unless_returned
  run_round e = unless_returned e.returned e

  pub run_rounds : ℕ → Executor Job → Executor Job
  run_rounds zero e = e
  run_rounds (suc n) e = run_rounds n (run_round e)
