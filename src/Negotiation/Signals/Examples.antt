-- ===== src/Negotiation/Signals/Examples.antt =====
-- Tests of signals: the guest of the test room sends an answer to the host, leaves, and is
-- disconnected.
use crossdesk_server.Common.{
  String, ◌≡◌, refl, true, false, some, [], ◌∷◌, find, contains, string_key, nat_key,
}
use crossdesk_server.Transmission.Connections.Access.{HasAccess}
use crossdesk_server.Transmission.Rooms.{
  get_host_id_of_transmission, is_host_of_transmission, release_guest_from_transmission,
  get_all_user_id_of_transmission,
}
use crossdesk_server.Transmission.Connections.{
  is_connection_in_transmission, get_room_handle, get_user_id, get_ws_handle,
}
use crossdesk_server.Transmission.State.{same_connection}
use crossdesk_server.Negotiation.Json.{string, Object, get_string_field}
use crossdesk_server.Negotiation.Signals.{
  Peers, peers, answer, leave_transmission, leave_fields_of, disconnect_peer,
}
use crossdesk_server.Negotiation.Signals.Relay.{Relays, relay, on_offer, relay-Relays}
use crossdesk_server.Negotiation.Signals.Leaving.{
  HasLeft, leave_transmission-HasLeft, IsDisconnected, disconnect_peer-IsDisconnected,
}
use crossdesk_server.Negotiation.Fixture.{meeting, meeting-IsSound, test_environment, negotiation}

abbrev request : Object
request =
    ("transmission_id", string "room")
    ∷ ("user_id", string "C-guest")
    ∷ ("remote_user_id", string "host")
    ∷ ("sdp", string "v=0")
    ∷ []

abbrev disconnection : Object
disconnection =
    ("transmission_id", string "room")
    ∷ ("user_id", string "host")
    ∷ ("remote_user_id", string "C-guest")
    ∷ []

-- The answer reaches the host's connection with the name of the guest.
answered :
    (answer test_environment negotiation 2 request).0.sent
    ≡ (
      1,
      ("type", string "answer")
          ∷ ("sdp", string "v=0")
          ∷ ("remote_user_id", string "C-guest")
          ∷ ("transmission_id", string "room")
          ∷ [],
    )
      ∷ []
unfolding answer get_string_field find get_host_id_of_transmission is_connection_in_transmission
    get_room_handle get_user_id get_ws_handle same_connection
answered = refl

-- The host's connection cannot answer as the guest.
refused : (answer test_environment negotiation 1 request).1 ≡ false
unfolding answer get_string_field find get_user_id
refused = refl

relay-Relays_example :
    Relays test_environment negotiation 2 (relay test_environment on_offer negotiation 2 request).0
relay-Relays_example =
    relay-Relays test_environment on_offer negotiation 2 request meeting-IsSound refl
      (λ issue h. absurd (cc h)) (λ issue h. absurd (cc h))

left : (leave_transmission test_environment negotiation 2 request).1 ≡ true
unfolding leave_transmission get_string_field find is_connection_in_transmission get_room_handle
    get_user_id get_ws_handle same_connection is_host_of_transmission
    release_guest_from_transmission contains get_all_user_id_of_transmission
left = refl

leave_transmission-HasLeft_example :
    (room : String) × (user : String) × (leave_fields_of request ≡ some (room, user))
    × (find 2 meeting.users ≡ some user)
    × HasAccess meeting 2 room user
    × HasLeft test_environment negotiation
        (leave_transmission test_environment negotiation 2 request).0
        room
        user
leave_transmission-HasLeft_example =
    leave_transmission-HasLeft test_environment negotiation 2 request meeting-IsSound left

disconnected : (disconnect_peer test_environment negotiation 1 disconnection).1 ≡ true
unfolding disconnect_peer get_string_field find get_host_id_of_transmission
    is_connection_in_transmission get_room_handle get_user_id get_ws_handle same_connection
    is_host_of_transmission release_guest_from_transmission contains
disconnected = refl

disconnect_peer-IsDisconnected_example :
    (p : Peers) × (peers disconnection ≡ some p)
    × IsDisconnected test_environment negotiation
        (disconnect_peer test_environment negotiation 1 disconnection).0
        1
        p
disconnect_peer-IsDisconnected_example =
    disconnect_peer-IsDisconnected test_environment negotiation 1 disconnection meeting-IsSound refl
      disconnected
