-- ===== src/Negotiation/Account/Examples.antt =====
-- Tests of the handlers of Account: the host of the test room reports its client.
use crossdesk_server.Common.{
  List, String, ◌≡◌, ◌⊎◌, refl, true, false, [], ◌∷◌, find, split_at_sign, string_key, nat_key,
}
use crossdesk_server.Identity.{is_temporary_controller_id}
use crossdesk_server.Transmission.Connections.{get_user_id}
use crossdesk_server.Negotiation.Json.{string, Object, get_string_field}
use crossdesk_server.Negotiation.State.{Negotiation, should_track_client_info}
use crossdesk_server.Negotiation.Account.{
  client_info, revoke_reconnect_credential, on_temporary_controller_disconnect,
}
use crossdesk_server.Negotiation.Account.ClientInfo.{Stores, client_info-Stores}
use crossdesk_server.Negotiation.Fixture.{test_environment, negotiation}

abbrev report : Object
report = ("version", string "1.2.0") ∷ ("platform", string "linux") ∷ []

abbrev reported : Negotiation (List String)
reported = record negotiation { db = "info " ∷ [] }

stored : client_info test_environment negotiation 1 report ≡ (reported, true)
unfolding client_info get_string_field find get_user_id should_track_client_info
    is_temporary_controller_id
stored = refl

-- A connection without an id reports nothing.
unknown : client_info test_environment negotiation 3 report ≡ (negotiation, false)
unfolding client_info get_string_field find get_user_id
unknown = refl

web_gone :
    (on_temporary_controller_disconnect test_environment negotiation "web-1@pw").db ≡ "remove" ∷ []
unfolding on_temporary_controller_disconnect split_at_sign is_temporary_controller_id
web_gone = refl

-- The host's id may revoke its reconnect credential; a controller's may not.
own_credential : (revoke_reconnect_credential test_environment negotiation 1).1 ≡ true
unfolding revoke_reconnect_credential get_user_id find should_track_client_info
    is_temporary_controller_id
own_credential = refl

controller_credential : (revoke_reconnect_credential test_environment negotiation 2).1 ≡ false
unfolding revoke_reconnect_credential get_user_id find should_track_client_info
    is_temporary_controller_id
controller_credential = refl

client_info-Stores_example :
    ((reported ≡ negotiation)
      × (should_track_client_info (get_user_id negotiation.manager 1) ≡ false))
    ⊎ Stores test_environment negotiation 1 report reported
client_info-Stores_example =
    client_info-Stores test_environment negotiation 1 report reported stored
