-- ===== src/Negotiation/Json.antt =====
-- JSON values as the handlers read and build them: an object is the list of its members, whose
-- order has no meaning. Numbers that a handler tests for being integers are `integer`.
use crossdesk_server.Common.{
  ℕ, String, Bool, false, Option, none, some, List, string_key, Assoc, find, is_some, ◌==◌, nat_key,
}

mutual
  pub data Value : Type 0 where
    null : Value
    boolean : Bool → Value
    integer : ℕ → Value
    number : String → Value
    string : String → Value
    strings : List String → Value
    object : Members → Value

  pub data Members : Type 0 where
    nothing : Members
    member : String → Value → Members → Members

abbrev pub Object : Type 0
Object = Assoc String Value

abbrev pub as_text : Option Value → Option String
as_text (some (string s)) = some s
as_text _ = none

-- j.contains(key)
unfoldable pub has_field : Object → String → Bool
has_field j key = is_some (find key j)

-- j.contains(key) && j[key].is_number_integer() && j[key] == 1
abbrev pub is_one : Option Value → Bool
is_one (some (integer n)) = n == 1
is_one _ = false

-- GetStringField
unfoldable pub get_string_field : Object → String → Option String
get_string_field j key = as_text (find key j)
