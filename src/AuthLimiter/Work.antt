-- ===== src/AuthLimiter/Work.antt =====
-- src/device_auth_limiter.{h,cpp}, class CredentialWorkLimiter: tokens for expensive work, a fixed
-- number to a source in each window of one minute.
pub mod Windows
mod Examples
use crossdesk_server.Common.{
  ℕ, suc, ◌+◌, ◌-◌, ◌*◌, ◌/◌, String, Bool, ◌&&◌, not, Option, none, some, [], ltb, leb, ◌==◌,
  if◌then◌else◌, is_some, or_else, length, nat_key, string_key, Assoc, find, set, revise,
}
use crossdesk_server.AuthLimiter.Bucket.{second, max_entries}
use crossdesk_server.AuthLimiter.Verify.{source_key}

abbrev pub minute : ℕ
minute = 60 * second

pub record Window : Type 0 where
  pub count : ℕ
  pub expires : ℕ

pub record WorkLimiter : Type 0 where
  pub source_limit : ℕ
  pub next_cleanup : ℕ
  pub sources : Assoc String Window

-- The constructor; `none` is its std::invalid_argument.
pub make : ℕ → Option WorkLimiter
make source_limit =
    if source_limit == 0
    then none
    else some (record { source_limit = source_limit; next_cleanup = 0; sources = [] })

live_window : ℕ → String → Window → Option Window
live_window now key w = if leb w.expires now then none else some w

cleanup : WorkLimiter → ℕ → WorkLimiter
unfolding live_window
cleanup l now =
    if leb l.next_cleanup now
    then record l { sources = revise (live_window now) l.sources; next_cleanup = now + minute }
    else l

-- try_emplace, and a window that has ended starts again.
current_window : ℕ → Option Window → Window
current_window now o =
    let w : Window = or_else o (record { count = 0; expires = now + minute }) in
    if leb w.expires now then record { count = 0; expires = now + minute } else w

retry : ℕ → ℕ → Window → ℕ
retry limit now w = if ltb w.count limit then 0 else (w.expires - now + (second - 1)) / second

charge : WorkLimiter → ℕ → String → Window → WorkLimiter × ℕ
unfolding retry
charge l now key w =
    let delay = retry l.source_limit now w in
    if ltb 0 delay
    then (record l { sources = set key w l.sources }, delay)
    else (record l { sources = set key (record w { count = suc w.count }) l.sources }, 0)

admit_key : WorkLimiter → ℕ → String → WorkLimiter × ℕ
unfolding charge current_window
admit_key l now key =
    if not (is_some (find key l.sources)) && leb max_entries (length l.sources)
    then (l, 60)
    else charge l now key (current_window now (find key l.sources))

-- The number is 0 for a token granted, or the seconds to wait.
pub admit : WorkLimiter → ℕ → String → WorkLimiter × ℕ
unfolding admit_key cleanup source_key
admit l now source = admit_key (cleanup l now) now (source_key source)
