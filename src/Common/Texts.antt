-- ===== src/Common/Texts.antt =====
-- What the program asks of a `std::string`, by positions in bytes.
use Prim.Native.Nat.{ℕ, ◌+◌}
use Prim.Native.String.{String, len, slice}
use text.Mathlib.Text.{find?}
use mathlib.Core.Path.{◌≡◌, refl}
use mathlib.Core.Bool.{Bool, true}
use mathlib.Core.Option.{Option, none, some}
use crossdesk_server.Common.Tests.{is_some}

-- s.find(t) != npos
unfoldable pub has_text : String → String → Bool
has_text s t = is_some (find? s t)

cut_at : String → Option ℕ → String × String
cut_at s none = (s, "")
cut_at s (some i) = (slice s 0 i, slice s (i + 1) (len s))

-- What stands before the first character `@`, and what follows it.
unfoldable pub split_at_sign : String → String × String
unfolding cut_at
split_at_sign s = cut_at s (find? s "@")

-- s.substr(n), for n up to the length
unfoldable pub substr : String → ℕ → String
substr s n = slice s n (len s)

nul_found : has_text "a\0b" "\0" ≡ true
unfolding has_text
nul_found = refl

id_and_password : split_at_sign "12@ab@c" ≡ ("12", "ab@c")
unfolding split_at_sign
id_and_password = refl
