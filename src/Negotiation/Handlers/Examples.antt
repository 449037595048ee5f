-- ===== src/Negotiation/Handlers/Examples.antt =====
-- Tests of the handlers that ask for credentials, in the test room: its guest joins again, and new
-- connections log in.
use crossdesk_server.Common.{
  String, ◌≡◌, refl, true, some, [], ◌∷◌, find, set, split_at_sign, has_text, substr, string_key,
  nat_key,
}
use crossdesk_server.Identity.{is_temporary_controller_id}
use crossdesk_server.AuthLimiter.Bucket.{remote_connection}
use crossdesk_server.Transmission.Connections.{
  get_user_id, get_verified_device_id, bind_user_to_ws_handle,
}
use crossdesk_server.Negotiation.Json.{string, Object, has_field, get_string_field}
use crossdesk_server.AuthLimiter.Verify.{cooldown_remaining}
use crossdesk_server.Negotiation.State.{set_failure, valid_device_credentials}
use crossdesk_server.Negotiation.Login.{complete_login}
use crossdesk_server.Negotiation.Work.{absent}
use crossdesk_server.Negotiation.Authentication.{Authentication, joining, begin_authentication}
use crossdesk_server.Negotiation.Handlers.{
  authenticating, done, begin_login, begin_join, login_user, query_user_id_list, join_transmission,
}
use crossdesk_server.Negotiation.Handlers.Admission.{
  Joins, IsKnown, begin_join-Joins, begin_login-IsKnown,
}
use crossdesk_server.Negotiation.Handlers.Keeping.{Keeps, handlers-IsSound}
use crossdesk_server.Negotiation.Fixture.{meeting-IsSound, test_environment, negotiation}

abbrev join_request : Object
join_request = ("transmission_id", string "room@secret") ∷ ("user_id", string "C-guest") ∷ []

abbrev login_request : Object
login_request = ("user_id", string "C-desk") ∷ []

abbrev asked : Authentication String
asked = record {
  hdl = 2;
  source_address = "10.0.0.1";
  device_id = "room";
  password = "secret";
  stored = some "secret";
  identity = "C-guest";
  controller = "";
  source_key = "key";
  pair_key = "key";
  failure =
      ("type", string "user_join_transmission")
      ∷ ("transmission_id", string "room")
      ∷ ("status", string "failed")
      ∷ ("error_code", string "AUTHENTICATION_FAILED")
      ∷ ("reason", string "Incorrect password")
      ∷ [];
  bind_login_key = "";
  operation = remote_connection;
  purpose = joining "room" "C-guest";
}

begun : (begin_join test_environment negotiation 2 join_request "10.0.0.1").1 ≡ authenticating asked
unfolding begin_join get_user_id get_verified_device_id find set get_string_field split_at_sign
    has_text begin_authentication cooldown_remaining valid_device_credentials set_failure
    is_temporary_controller_id
begun = refl

begin_join-Joins_example :
    (name : String) × ((get_string_field join_request "transmission_id" ≡ some name)
      × Joins test_environment negotiation 2 (split_at_sign name) asked)
begin_join-Joins_example =
    begin_join-Joins test_environment negotiation 2 join_request "10.0.0.1" asked begun

logged_in : (begin_login test_environment negotiation 3 login_request "10.0.0.1").1 ≡ done true
unfolding begin_login get_user_id find has_field get_string_field split_at_sign has_text substr
    valid_device_credentials complete_login bind_user_to_ws_handle set
logged_in = refl

begin_login-IsKnown_example :
    (name : String) × ((get_string_field login_request "user_id" ≡ some name)
      × IsKnown test_environment negotiation 3 login_request (split_at_sign name).0)
begin_login-IsKnown_example =
    begin_login-IsKnown test_environment negotiation 3 login_request "10.0.0.1" logged_in

handlers-IsSound_example :
    Keeps (login_user test_environment negotiation 3 login_request "10.0.0.1" absent (λ l. l) 0)
    × (Keeps
          (query_user_id_list test_environment negotiation 3 login_request "10.0.0.1" absent
            (λ l. l)
            0).1
        × Keeps
            (join_transmission test_environment negotiation 3 login_request "10.0.0.1" absent
              (λ l. l)
              0).1)
handlers-IsSound_example =
    handlers-IsSound test_environment negotiation 3 login_request "10.0.0.1" absent (λ l. l) 0 refl
      meeting-IsSound
