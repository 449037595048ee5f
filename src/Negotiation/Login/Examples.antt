-- ===== src/Negotiation/Login/Examples.antt =====
-- Tests of logins, in the test room: a third connection logs in to the id "desk".
use crossdesk_server.Common.{◌≡◌, refl, true, false, none, [], find, string_key, nat_key}
use crossdesk_server.Transmission.Connections.{get_user_id, bind_user_to_ws_handle}
use crossdesk_server.Negotiation.State.{Credential}
use crossdesk_server.Negotiation.Login.{complete_login}
use crossdesk_server.Negotiation.Login.Binding.{LoginResult, complete_login-Result}
use crossdesk_server.Negotiation.Fixture.{test_environment, negotiation}

abbrev desk : Credential
desk = record { device_id = "desk"; password = ""; update = false }

accepted : (complete_login test_environment negotiation 3 [] "desk" desk false none "").1 ≡ true
unfolding complete_login get_user_id find bind_user_to_ws_handle
accepted = refl

-- A connection that has an id cannot log in again.
again : (complete_login test_environment negotiation 1 [] "desk" desk false none "").1 ≡ false
unfolding complete_login get_user_id find
again = refl

complete_login-Result_example :
    LoginResult test_environment negotiation 3 "desk" desk ""
      (complete_login test_environment negotiation 3 [] "desk" desk false none "")
complete_login-Result_example =
    complete_login-Result test_environment negotiation 3 [] "desk" desk false none "" refl
