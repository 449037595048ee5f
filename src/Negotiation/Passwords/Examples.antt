-- ===== src/Negotiation/Passwords/Examples.antt =====
-- Tests of password changes: the host of the test room changes its password, and asks again.
use Prim.Native.String.{◌++◌ as append}
use text.Mathlib.Text.{starts_with}
use crossdesk_server.Common.{
  String, ◌≡◌, refl, some, none, [], ◌∷◌, ◌++◌, find, set, contains, has_text, string_key, nat_key,
  if◌then◌else◌, arith,
}
use crossdesk_server.Identity.{is_temporary_controller_id}
use crossdesk_server.Transmission.Connections.{get_user_id}
use crossdesk_server.Negotiation.Json.{string, Object, get_string_field}
use crossdesk_server.Negotiation.State.{send}
use crossdesk_server.Negotiation.Passwords.{
  Change, begin_change, finish_change, forget_password_change_results,
}
use crossdesk_server.Negotiation.Passwords.Cache.{IsCache, finish_change-IsCache, forget-IsCache}
use crossdesk_server.Negotiation.Passwords.Retry.{change-retry}
use crossdesk_server.Negotiation.Fixture.{test_environment, negotiation}

abbrev request : Object
request = ("request_id", string "r1") ∷ ("new_password", string "abcdef") ∷ []

abbrev change : Change String
change = record {
  hdl = 1;
  user_id = "host";
  new_password = "abcdef";
  stored = some "secret";
  message =
      ("type", string "change_password")
      ∷ ("status", string "fail")
      ∷ ("request_id", string "r1")
      ∷ ("user_id", string "host")
      ∷ [];
  cache_key = "host\nr1";
  fingerprint = "abcdef";
}

begun : (begin_change test_environment negotiation 1 request).1 ≡ some change
unfolding begin_change get_string_field find get_user_id has_text is_temporary_controller_id set
begun = refl

-- A password of five characters is refused.
too_short :
    (begin_change test_environment negotiation 1
      (("request_id", string "r1") ∷ ("new_password", string "abcde") ∷ [])).1
    ≡ none
unfolding begin_change get_string_field find get_user_id has_text is_temporary_controller_id
too_short = refl

negotiation-IsCache : IsCache negotiation
unfolding contains find
negotiation-IsCache = record {
  kept = record { distinct = tt; known = λ key. refl };
  bounded = omega arith;
}

finish_change-IsCache_example :
    IsCache (finish_change test_environment negotiation change (some "abcdef"))
finish_change-IsCache_example =
    finish_change-IsCache test_environment negotiation change (some "abcdef") negotiation-IsCache

forget-IsCache_example :
    let t = forget_password_change_results negotiation "host" in
    IsCache t
    × ((key : String)
        → find key t.results
          ≡ (if starts_with key (append "host" "\n") then none else find key negotiation.results))
forget-IsCache_example = forget-IsCache negotiation "host" negotiation-IsCache

change-retry_example :
    let t = finish_change test_environment negotiation change (some "abcdef") in
    let response = set "status" (string "success") change.message in
    (t.sent ≡ [] ++ (1, response) ∷ [])
    × (begin_change test_environment t 1 request ≡ (send t 1 response, none))
unfolding find
change-retry_example =
    change-retry test_environment negotiation negotiation 1 request change "secret" "abcdef" begun
      negotiation-IsCache refl refl refl refl refl
