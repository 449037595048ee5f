-- ===== src/Negotiation/DeviceLogin/Request.antt =====
-- What `LoginWithKey` reads of a request, with `Hex`. `none` is its `reject`.
use Prim.Native.String.{len}
use Prim.Native.Char.{Char, code}
use text.Mathlib.Text.{starts_with, char_at?}
use crossdesk_server.Common.{
  ℕ, zero, suc, ◌+◌, ◌*◌, String, Bool, true, false, ◌&&◌, ◌||◌, not, Option, none, some, ◌==◌, ltb,
  leb, if◌then◌else◌, has_text, split_at_sign, substr, string_key, nat_key, find,
}
use crossdesk_server.Identity.{is_temporary_controller_id, is_temporary_controller_registration}
use crossdesk_server.Negotiation.Json.{Value, Object, Members, nothing, member, as_text, is_one}

is_hex_digit : Option Char → Bool
is_hex_digit none = false
is_hex_digit (some c) =
    (leb 48 (code c) && leb (code c) 57) || (leb 97 (code c) && leb (code c) 102)

hex_digits : String → ℕ → ℕ → Bool
unfolding is_hex_digit
hex_digits s start zero = true
hex_digits s start (suc n) = is_hex_digit (char_at? s start) && hex_digits s (start + 1) n

unfoldable pub hex : String → ℕ → Bool
unfolding hex_digits
hex s bytes = len s == bytes * 2 && hex_digits s 0 (bytes * 2)

unfoldable pub field : String → Members → Option Value
field key nothing = none
field key (member name value rest) = if name == key then some value else field key rest

unfoldable pub size : Members → ℕ
size nothing = 0
size (member name value rest) = suc (size rest)

members_of : Option Value → Option Members
members_of (some (Value.object o)) = some o
members_of _ = none

-- The request, as far as both of its forms need it.
pub record KeyRequest : Type 0 where
  pub request : Object
  pub source : String
  pub id : String
  pub password : String
  pub has_sign : Bool
  pub public_key : String
  pub proof : Members

unfoldable pub device_of : String → String
device_of id = if starts_with id "C-" then substr id 2 else id

-- The checks up to the public key.
is_refused : String → String → String → Members → Bool
unfolding device_of field size
is_refused identity id password proof =
    let controller = starts_with id "C-" in
    let device_id = device_of id in
    ltb 128 (len id)
    || ltb 256 (len password)
    || has_text identity "\0"
    || (controller && (device_id == "" || starts_with device_id "C-"))
    || is_temporary_controller_id device_id
    || is_temporary_controller_registration device_id
    || ltb 4 (size proof)
    || not (is_one (field "version" proof))

parsed_key :
    Object → String → String → String × String → Members → Option String → Option KeyRequest
unfolding is_refused
parsed_key j source identity (id, password) proof none = none
parsed_key j source identity (id, password) proof (some public_key) =
    if is_refused identity id password proof || not (hex public_key 32)
    then none
    else some (record {
      request = j;
      source = source;
      id = id;
      password = password;
      has_sign = has_text identity "@";
      public_key = public_key;
      proof = proof;
    })

parsed_proof : Object → String → String → Option Members → Option KeyRequest
unfolding parsed_key field
parsed_proof j source identity none = none
parsed_proof j source identity (some proof) =
    parsed_key j source identity (split_at_sign identity) proof (as_text (field "public_key" proof))

parsed : Object → String → Option String → Option KeyRequest
unfolding parsed_proof members_of
parsed j source none = none
parsed j source (some identity) = parsed_proof j source identity (members_of (find "device_key" j))

unfoldable pub parse_request : Object → String → Option KeyRequest
unfolding parsed
parse_request j source = parsed j source (as_text (find "user_id" j))
