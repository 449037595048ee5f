-- ===== src/AuthLimiter/Bucket/Examples.antt =====
-- Witnesses on one bucket of failures.
use crossdesk_server.Common.{ℕ, ◌+◌, ◌*◌, ◌≡◌, refl, List, true, false, [], ◌∷◌, arith}
use crossdesk_server.AuthLimiter.Bucket.{
  Failures, fixed, device_login, window, second, finished, cleared,
}
use crossdesk_server.AuthLimiter.Bucket.Backoff.{
  attempt, attempt_all, InTime, IsEscalated, Step, reserving, settling, take_all, IsBlank,
  backoff_doubles, finished-cleared,
}

abbrev four_failures : Failures
four_failures = record {
  count = 4;
  pending = 1;
  expires = window;
  blocked_until = 0;
  backoff = 0;
  generation = 7;
  operations = 1;
}

abbrev cleared_bucket : Failures
cleared_bucket = record {
  count = 0;
  pending = 1;
  expires = 10 + window;
  blocked_until = 0;
  backoff = 0;
  generation = 8;
  operations = 0;
}

-- The fifth failure, one after the cooldown of a minute and one after that of two minutes, and then
-- one long after that of four minutes.
abbrev rest : List (ℕ × ℕ)
rest = (80 * second, 81 * second) ∷ (210 * second, 211 * second) ∷ []

times-InTime : InTime 0 (11 * second) rest
unfolding InTime
times-InTime = (omega arith, (omega arith, (omega arith, (omega arith, tt))))

backoff_doubles_example :
    let g = attempt_all 5 device_login ((10 * second, 11 * second) ∷ rest) four_failures in
    let h = attempt 5 device_login (2251 * second, 2252 * second) g in
    IsEscalated 5 2 (211 * second) g × ((h.count ≡ 1) × (h.blocked_until ≡ 0))
backoff_doubles_example =
    backoff_doubles 5 (10 * second) (11 * second) device_login four_failures rest (2251 * second)
      (2252 * second) (omega arith) (omega arith) refl (omega arith) (omega arith) times-InTime
      (omega arith) (omega arith) (omega arith)

-- Another verification fails in between.
abbrev between : List Step
between = reserving 15 ∷ settling 18 8 false device_login ∷ []

finished-cleared_example :
    let h = take_all fixed 5 between cleared_bucket in
    IsBlank cleared_bucket
    × ((finished fixed 5 20 7 false device_login h ≡ finished fixed 5 20 7 true device_login h)
        × IsBlank (finished fixed 5 20 7 false device_login cleared_bucket))
finished-cleared_example =
    finished-cleared (λ key. true) "device" fixed 5 10 20 device_login between four_failures
      cleared_bucket refl (omega arith) (unfold cleared in refl)
