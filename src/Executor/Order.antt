-- ===== src/Executor/Order.antt =====
-- Which jobs the executor accepts, and the order in which they run.
use crossdesk_server.Common.{
  ℕ, suc, ◌+◌, ◌≤◌, ◌<◌, ◌^◌, Bool, true, false, not, List, [], ◌∷◌, ◌++◌, ◌≡◌, refl, subst,
  if◌then◌else◌, length, keep, count_if, count_if-append, arith, ◌∙◌,
}
use mathlib.Core.List.{append_assoc, append-nil}
use crossdesk_server.Executor.{
  Executor, Event, submitted, stop_requested, worker_turn, request_stop, submit, run_front,
  unless_returned, run_round, run_rounds,
}

module _ {ℓ} {Job : Type ℓ} (capacity reserve : ℕ) (fails lifecycle : Job → Bool) where
  -- An event, with the jobs accepted so far.
  unfoldable pub handle : Event Job → Executor Job × List Job → Executor Job × List Job
  handle (submitted job) (e, accepted) =
      let r = submit capacity reserve e job (lifecycle job) in
      (r.0, if r.1 then accepted ++ job ∷ [] else accepted)
  handle stop_requested (e, accepted) = (request_stop e, accepted)
  handle worker_turn (e, accepted) = (run_round fails e, accepted)

  unfoldable pub run_events : List (Event Job) → Executor Job × List Job → Executor Job × List Job
  run_events [] s = s
  run_events (event ∷ events) s = run_events events (handle event s)

-- The order of the jobs that ran and of those that wait, the room for ordinary jobs, and the
-- errors reported.
pub record IsOrderly {ℓ} {Job : Type ℓ} (capacity : ℕ) (fails lifecycle : Job → Bool)
    (s : Executor Job × List Job) : Type ℓ where
  pub order : s.0.ran ++ s.0.jobs ≡ s.1
  pub ordinary : count_if (λ job. not (lifecycle job)) s.0.jobs ≤ capacity
  pub reported : s.0.errors ≡ keep fails s.0.ran

module _ {ℓ} {Job : Type ℓ} (capacity reserve : ℕ) (fails lifecycle : Job → Bool) where
  submit-room :
      (e : Executor Job) (job : Job)
      → capacity + reserve < 2 ^ 64
      → e.stopping ≡ false
      → length e.jobs < capacity + (if lifecycle job then reserve else 0)
      → submit capacity reserve e job (lifecycle job)
        ≡ (record e { jobs = e.jobs ++ job ∷ [] }, true)
  unfolding submit
  submit-room e job b s h = ground arith

  count_split :
      (jobs : List Job)
      → length jobs ≡ count_if lifecycle jobs + count_if (λ job. not (lifecycle job)) jobs
  unfolding count_if
  count_split [] = refl
  count_split (job ∷ jobs) = ground (arith, count_split jobs)

  pub keep-append :
      (p : Job → Bool) (xs : List Job) (job : Job)
      → keep p (xs ++ job ∷ []) ≡ (if p job then keep p xs ++ job ∷ [] else keep p xs)
  unfolding keep
  keep-append p [] job = ground arith
  keep-append p (x ∷ xs) job = ground (arith, keep-append p xs job)

  submit-ordinary :
      (e : Executor Job) (job : Job)
      → count_if (λ j. not (lifecycle j)) e.jobs ≤ capacity
      → count_if (λ j. not (lifecycle j)) (submit capacity reserve e job (lifecycle job)).0.jobs
        ≤ capacity
  unfolding submit count_if
  submit-ordinary e job o =
      ground (arith, count_split e.jobs, count_if-append (λ j. not (lifecycle j)) e.jobs (job ∷ []))

  submit-order :
      (e : Executor Job) (job : Job) (accepted : List Job)
      → e.ran ++ e.jobs ≡ accepted
      → let r = submit capacity reserve e job (lifecycle job) in
        (r.0.ran ++ r.0.jobs) ≡ (if r.1 then accepted ++ job ∷ [] else accepted)
  unfolding submit
  submit-order e job accepted h = ground (arith, append_assoc e.ran e.jobs (job ∷ []))

  submit-reported :
      (e : Executor Job) (job : Job)
      → e.errors ≡ keep fails e.ran
      → let r = submit capacity reserve e job (lifecycle job) in r.0.errors ≡ keep fails r.0.ran
  unfolding submit
  submit-reported e job h = ground arith

  front-IsOrderly :
      (e : Executor Job) (accepted jobs : List Job)
      → e.jobs ≡ jobs
      → IsOrderly capacity fails lifecycle (e, accepted)
      → IsOrderly capacity fails lifecycle (run_front fails e jobs, accepted)
  unfolding run_front count_if
  front-IsOrderly e accepted [] q v = record {
    order = v.order;
    ordinary = v.ordinary;
    reported = v.reported;
  }
  front-IsOrderly e accepted (job ∷ rest) q v = record {
    order = append_assoc e.ran (job ∷ []) rest ∙ subst (λ jobs. e.ran ++ jobs ≡ accepted) q v.order;
    ordinary =
        let o : count_if (λ j. not (lifecycle j)) (job ∷ rest) ≤ capacity =
          subst (λ jobs. count_if (λ j. not (lifecycle j)) jobs ≤ capacity) q v.ordinary in
        omega arith;
    reported = ground (arith, keep-append fails e.ran job, v.reported);
  }

  round-IsOrderly :
      (returned : Bool) (e : Executor Job) (accepted : List Job)
      → IsOrderly capacity fails lifecycle (e, accepted)
      → IsOrderly capacity fails lifecycle (unless_returned fails returned e, accepted)
  unfolding unless_returned
  round-IsOrderly true e accepted v = v
  round-IsOrderly false e accepted v = front-IsOrderly e accepted e.jobs refl v

  handle-IsOrderly :
      (event : Event Job) (s : Executor Job × List Job)
      → IsOrderly capacity fails lifecycle s
      → IsOrderly capacity fails lifecycle (handle capacity reserve fails lifecycle event s)
  unfolding handle request_stop run_round
  handle-IsOrderly (submitted job) (e, accepted) v = record {
    order = submit-order e job accepted v.order;
    ordinary = submit-ordinary e job v.ordinary;
    reported = submit-reported e job v.reported;
  }
  handle-IsOrderly stop_requested (e, accepted) v = record {
    order = v.order;
    ordinary = v.ordinary;
    reported = v.reported;
  }
  handle-IsOrderly worker_turn (e, accepted) v = round-IsOrderly e.returned e accepted v

  -- However submissions, the worker's rounds and a stop interleave: the jobs that ran, then those
  -- that wait, are the accepted jobs in the order of their submission; no more than `capacity`
  -- ordinary jobs wait; and the errors reported are those of the jobs that threw, in order.
  pub run_events-IsOrderly :
      (events : List (Event Job)) (s : Executor Job × List Job)
      → IsOrderly capacity fails lifecycle s
      → IsOrderly capacity fails lifecycle (run_events capacity reserve fails lifecycle events s)
  unfolding run_events
  run_events-IsOrderly [] s v = v
  run_events-IsOrderly (event ∷ events) s v =
      run_events-IsOrderly events (handle capacity reserve fails lifecycle event s)
        (handle-IsOrderly event s v)

  -- The reserved slots are kept for lifecycle work: whatever ordinary work was accepted before, a
  -- lifecycle job is accepted while fewer lifecycle jobs than `reserve` wait and no stop has been
  -- requested, for limits whose sum fits 64 bits.
  pub submit-reserved :
      (s : Executor Job × List Job) (job : Job)
      → IsOrderly capacity fails lifecycle s
      → capacity + reserve < 2 ^ 64
      → s.0.stopping ≡ false
      → lifecycle job ≡ true
      → count_if lifecycle s.0.jobs < reserve
      → submit capacity reserve s.0 job (lifecycle job)
        ≡ (record s.0 { jobs = s.0.jobs ++ job ∷ [] }, true)
  submit-reserved (e, accepted) job v b n l h =
      submit-room e job b n (rw l (let o = v.ordinary in omega (arith, count_split e.jobs)))

module _ {ℓ} {Job : Type ℓ} (fails : Job → Bool) where
  errors_kept :
      (job : Job) (rest errors : List Job)
      → (if fails job then errors ++ job ∷ [] else errors) ++ keep fails rest
        ≡ errors ++ (if fails job then job ∷ keep fails rest else keep fails rest)
  errors_kept job rest errors = ground (arith, append_assoc errors (job ∷ []) (keep fails rest))

  rounds-drain :
      (jobs ran errors : List Job)
      → run_rounds fails
          (suc (length jobs))
          (record { jobs = jobs; stopping = true; ran = ran; errors = errors; returned = false })
        ≡ record {
          jobs = [];
          stopping = true;
          ran = ran ++ jobs;
          errors = errors ++ keep fails jobs;
          returned = true;
        }
  unfolding run_rounds run_round unless_returned run_front keep
  rounds-drain [] ran errors = rw (append-nil ran, append-nil errors) refl
  rounds-drain (job ∷ rest) ran errors =
      rounds-drain rest (ran ++ job ∷ []) (if fails job then errors ++ job ∷ [] else errors)
      ∙ rw (append_assoc ran (job ∷ []) rest, errors_kept job rest errors) refl

  -- After a stop the worker of an executor that has not returned needs one round more than there
  -- are waiting jobs: it runs all of them in order, reports the errors of those that throw, and
  -- returns.
  pub request_stop-drain :
      (e : Executor Job)
      → e.returned ≡ false
      → run_rounds fails (suc (length e.jobs)) (request_stop e) ≡ record {
        jobs = [];
        stopping = true;
        ran = e.ran ++ e.jobs;
        errors = e.errors ++ keep fails e.jobs;
        returned = true;
      }
  unfolding request_stop
  request_stop-drain e r = rw r (rounds-drain e.jobs e.ran e.errors)
