-- ===== src/Negotiation/Authentication/Examples.antt =====
-- Tests of authentications, in the test room: its guest lists the users of the room.
use crossdesk_server.Common.{
  String, List, ◌*◌, ◌≡◌, ◌⊎◌, refl, true, false, some, [], find, set, erase, revise, string_key,
  nat_key,
}
use crossdesk_server.AuthLimiter.Bucket.{member_query, second, prune, finish}
use crossdesk_server.AuthLimiter.Verify.{verify}
use crossdesk_server.Transmission.Connections.{get_user_id}
use crossdesk_server.Transmission.Rooms.{get_all_user_id_of_transmission}
use crossdesk_server.Negotiation.State.{Negotiation}
use crossdesk_server.Negotiation.Authentication.{
  Authentication, Finished, listing, authentication_work, continue_authentication,
}
use crossdesk_server.Negotiation.Authentication.Verified.{
  IsChecked, IsRefused, IsVerified, work-IsChecked, continue_authentication-IsVerified,
}
use crossdesk_server.Negotiation.Fixture.{test_environment, negotiation}

abbrev attempt : Authentication String
attempt = record {
  hdl = 2;
  source_address = "10.0.0.1";
  device_id = "room";
  password = "secret";
  stored = some "secret";
  identity = "C-guest";
  controller = "";
  source_key = "key";
  pair_key = "key";
  failure = [];
  bind_login_key = "";
  operation = member_query;
  purpose = listing "room";
}

abbrev matched : Finished String
matched = record {
  verified = some "secret";
  authenticated = true;
  retry_after = 0;
  unavailable = false;
}

listed : (continue_authentication test_environment negotiation attempt matched).1 ≡ true
unfolding continue_authentication get_user_id find get_all_user_id_of_transmission
listed = refl

-- The guest has disconnected from its id in the meantime.
gone :
    (continue_authentication test_environment negotiation
      (record attempt { identity = "other" })
      matched).1
    ≡ false
unfolding continue_authentication get_user_id find
gone = refl

continue_authentication-IsVerified_example :
    let t = continue_authentication test_environment negotiation attempt matched in
    IsRefused test_environment negotiation t
    ⊎ IsVerified test_environment negotiation attempt matched t
continue_authentication-IsVerified_example =
    continue_authentication-IsVerified test_environment negotiation attempt matched

abbrev worked : Negotiation (List String)
worked = record negotiation { auth = record negotiation.auth { next_cleanup = 60 * second } }

ran : authentication_work test_environment negotiation attempt (λ l. l) 0 ≡ some (worked, matched)
unfolding authentication_work verify find set erase revise finish prune
ran = refl

work-IsChecked_example : IsChecked test_environment negotiation attempt matched
work-IsChecked_example =
    work-IsChecked test_environment negotiation attempt (λ l. l) 0 worked matched ran
