-- ===== src/AuthLimiter/Work/Examples.antt =====
-- Witnesses and runs of the work limiter.
use crossdesk_server.Common.{
  ℕ, ◌+◌, String, ◌≡◌, refl, List, [], ◌∷◌, find, set, revise, string_key, arith,
}
use crossdesk_server.AuthLimiter.Work.{WorkLimiter, admit, minute}
use crossdesk_server.AuthLimiter.Work.Windows.{granted, run, IsOpen, granted-IsOpen}

-- Two tokens a minute; one is gone.
abbrev opened : WorkLimiter
opened = record {
  source_limit = 2;
  next_cleanup = minute;
  sources = ("10.0.0.1", record { count = 1; expires = minute }) ∷ [];
}

abbrev two_calls : List (ℕ × String)
two_calls = (1, "10.0.0.1") ∷ (2, "10.0.0.1") ∷ (3, "10.0.0.2") ∷ []

opened-IsOpen : IsOpen "10.0.0.1" minute 1 opened
opened-IsOpen = record {
  found = unfold find in refl;
  within = omega arith;
  unique = (unfold find in refl, tt);
}

second_call_refused : granted "10.0.0.1" opened two_calls ≡ 1
unfolding granted admit find set revise
second_call_refused = refl

granted-IsOpen_example :
    IsOpen "10.0.0.1" minute (1 + granted "10.0.0.1" opened two_calls) (run opened two_calls)
granted-IsOpen_example =
    granted-IsOpen "10.0.0.1" minute 1 opened two_calls (omega arith) opened-IsOpen
