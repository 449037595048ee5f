-- ===== src/Executor/Examples.antt =====
-- Tests of the executor, with an ordinary capacity of two and one reserved slot.
use crossdesk_server.Common.{
  ℕ, Bool, true, false, keep, ◌==◌, ltb, List, [], ◌∷◌, ◌≡◌, refl, arith, count_if, nat_key,
}
use crossdesk_server.Executor.{
  Executor, Event, submitted, worker_turn, new_executor, request_stop, submit, run_round,
  run_rounds,
}
use crossdesk_server.Executor.Order.{
  IsOrderly, run_events, handle, run_events-IsOrderly, submit-reserved, request_stop-drain,
}

-- Jobs from 10 on are lifecycle work, and job 2 throws.
abbrev is_lifecycle : ℕ → Bool
is_lifecycle job = ltb 9 job

abbrev throws : ℕ → Bool
throws job = job == 2

abbrev busy : List (Event ℕ)
busy = submitted 1 ∷ submitted 2 ∷ submitted 3 ∷ worker_turn ∷ submitted 4 ∷ []

new-IsOrderly : IsOrderly 2 throws is_lifecycle (new_executor, [])
unfolding count_if keep
new-IsOrderly = record { order = refl; ordinary = omega arith; reported = refl }

-- The third ordinary job is refused while two wait.
busy-accepted : run_events 2 1 throws is_lifecycle busy (new_executor, []) ≡ (
  record { jobs = 2 ∷ 4 ∷ []; stopping = false; ran = 1 ∷ []; errors = []; returned = false },
  1 ∷ 2 ∷ 4 ∷ [],
)
unfolding run_events handle submit run_round
busy-accepted = refl

run_events-IsOrderly_example :
    IsOrderly 2 throws is_lifecycle (run_events 2 1 throws is_lifecycle busy (new_executor, []))
run_events-IsOrderly_example =
    run_events-IsOrderly 2 1 throws is_lifecycle busy (new_executor, []) new-IsOrderly

submit-reserved_example :
    submit {Job = ℕ} 2 1 new_executor 10 (is_lifecycle 10)
    ≡ (record new_executor { jobs = 10 ∷ [] }, true)
unfolding count_if
submit-reserved_example =
    submit-reserved 2 1 throws is_lifecycle (new_executor, []) 10 new-IsOrderly (omega arith) refl
      refl (omega arith)

abbrev two_jobs : Executor ℕ
two_jobs = record { jobs = 1 ∷ 2 ∷ []; stopping = false; ran = []; errors = []; returned = false }

request_stop-drain_example :
    run_rounds throws 3 (request_stop two_jobs)
    ≡ record { jobs = []; stopping = true; ran = 1 ∷ 2 ∷ []; errors = 2 ∷ []; returned = true }
unfolding keep
request_stop-drain_example = request_stop-drain throws two_jobs refl
