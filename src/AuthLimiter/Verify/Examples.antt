-- ===== src/AuthLimiter/Verify/Examples.antt =====
-- Witnesses and runs of the credential limiter.
use crossdesk_server.Common.{
  ℕ, ◌+◌, ◌*◌, ◌≤◌, ◌<◌, ◌≡◌, refl, true, false, some, [], ◌∷◌, find, erase, set, revise,
  string_key, arith,
}
use crossdesk_server.AuthLimiter.Bucket.{
  Failures, fixed, device_login, second, window, prune, finish,
}
use crossdesk_server.AuthLimiter.Verify.{
  Limiter, Reservation, denied, admitted, returned, verdict, verdict_of, make, reserve, settle,
  cooldown_remaining,
}
use crossdesk_server.AuthLimiter.Verify.Reach.{
  Reach, begins, ends, here, next, WithinLimit, IsConsistent, by_source, by_target,
  in_flight_bounds, settle_in_flight, Reach-IsConsistent, make-IsConsistent,
}
use crossdesk_server.AuthLimiter.Verify.Cooldown.{reserve_cooldown}

-- One attempt is allowed to a source and to a device.
abbrev empty_limiter : Limiter
empty_limiter = record {
  source_failure_limit = 1;
  target_failure_limit = 1;
  policy = fixed;
  sources = [];
  targets = [];
  next_cleanup = 0;
}

abbrev one_pending : Failures
one_pending = record {
  count = 0;
  pending = 1;
  expires = window;
  blocked_until = 0;
  backoff = 0;
  generation = 0;
  operations = 0;
}

abbrev attempt : Reservation
attempt = record {
  source = "10.0.0.1";
  target = "device";
  source_generation = 0;
  target_generation = 0;
}

abbrev checking : Limiter
checking = record empty_limiter {
  sources = ("10.0.0.1", one_pending) ∷ [];
  targets = ("device", one_pending) ∷ [];
  next_cleanup = 60 * second;
}

abbrev blocked_bucket : Failures
blocked_bucket = record {
  count = 1;
  pending = 0;
  expires = 5 + window;
  blocked_until = 5 + window;
  backoff = window;
  generation = 0;
  operations = 1;
}

abbrev blocked : Limiter
blocked = record checking {
  sources = ("10.0.0.1", blocked_bucket) ∷ [];
  targets = ("device", blocked_bucket) ∷ [];
}

reserve_first : reserve empty_limiter 0 "10.0.0.1" "device" ≡ (checking, admitted attempt)
unfolding reserve prune find revise set
reserve_first = refl

settle_failure :
    settle checking 5 attempt (returned false) device_login ≡ some (blocked, verdict false 0)
unfolding settle finish find set erase
settle_failure = refl

made : make 1 1 fixed ≡ some empty_limiter
unfolding make
made = refl

begun :
    Reach
      (record { limiter = empty_limiter; in_flight = [] })
      (record { limiter = checking; in_flight = attempt ∷ [] })
begun = next here (begins 0 "10.0.0.1" "device" checking attempt reserve_first)

failed :
    Reach
      (record { limiter = empty_limiter; in_flight = [] })
      (record { limiter = blocked; in_flight = [] })
failed = next begun (
    ends 5 [] [] attempt (returned false) device_login blocked (verdict false 0) refl
      settle_failure)

in_flight_bounds_example :
    WithinLimit 1 (find "10.0.0.1" checking.sources) (by_source (attempt ∷ []) "10.0.0.1")
    × WithinLimit 1 (find "device" checking.targets) (by_target (attempt ∷ []) "device")
in_flight_bounds_example =
    in_flight_bounds 1 1 fixed empty_limiter
      (record { limiter = checking; in_flight = attempt ∷ [] }) "10.0.0.1" "device" made begun

settle_in_flight_example :
    (l : Limiter) × (settle checking 5 attempt (returned true) device_login
      ≡ some (l, verdict true 0))
    × IsConsistent (record { limiter = l; in_flight = [] })
unfolding verdict_of
settle_in_flight_example =
    settle_in_flight (record { limiter = checking; in_flight = attempt ∷ [] }) 5 [] [] attempt
      (returned true) device_login
      (Reach-IsConsistent begun (make-IsConsistent 1 1 fixed empty_limiter made)) refl

reserve_cooldown_example :
    (l : Limiter) × (retry : ℕ) × (reserve blocked 6 "10.0.0.1" "device" ≡ (l, denied retry))
    × (cooldown_remaining blocked 6 "10.0.0.1" "device" ≤ retry)
reserve_cooldown_example =
    reserve_cooldown blocked 6 "10.0.0.1" "device" (by_source []) (by_target [])
      (Reach-IsConsistent failed (make-IsConsistent 1 1 fixed empty_limiter made)) cooling
  where
    cooling : 0 < cooldown_remaining blocked 6 "10.0.0.1" "device"
    cooling = unfold cooldown_remaining find in omega arith
