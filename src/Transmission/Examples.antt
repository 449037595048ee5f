-- ===== src/Transmission/Examples.antt =====
-- Witnesses and runs of the transmission manager.
use crossdesk_server.Common.{
  String, ◌≡◌, ◌≢◌, refl, Bool, true, false, none, some, List, [], ◌∷◌, ◌++◌, find, remove,
  set_ordered, contains, string_key, nat_key, nat_beq, keep, if◌then◌else◌, ◌==◌,
}
use crossdesk_server.Identity.{is_temporary_controller_id}
use crossdesk_server.Transmission.Rooms.{
  bind_host_to_transmission, bind_guest_to_transmission, is_transmission_exist,
  is_host_of_transmission, get_all_user_id_of_transmission, release_guest_from_transmission,
  get_host_id_of_transmission,
}
use crossdesk_server.Transmission.State.{
  Handle, Note, remote_control, Manager, new_manager, same_connection,
  set_remote_control_session_callback,
}
use crossdesk_server.Transmission.Rooms.Invariant.{guests_in}
use crossdesk_server.Transmission.Rooms.Notes.{replay}
use crossdesk_server.Transmission.Soundness.{IsSound, guests_of}
use crossdesk_server.Transmission.Connections.{
  bind_user_to_ws_handle, bind_guest_connection, release_user_from_ws_handle,
  update_last_active_time, is_connection_in_transmission, get_user_id,
}
use crossdesk_server.Transmission.Connections.Access.{HasAccess, in_transmission-HasAccess}
use crossdesk_server.Transmission.Connections.Release.{released_lem}
use crossdesk_server.Transmission.Snapshots.{
  is_shown, snapshot_of, get_transmission_snapshots, get_transmission_snapshots_lem,
}
use crossdesk_server.Transmission.Calls.{
  Event, call, bind_host, bind_user, bind_guest_with, EmptyExpired, run, handle, perform, started,
  run-IsSound, new_manager-IsSound, started-IsSound, replay-delivered-run, KeepCallback,
  KeepsCallback, bind_guest, release_guest, remote_callback,
}

abbrev live : Handle → Bool
live h = nat_beq h 0

abbrev join : List ((Handle → Bool) × Event)
join =
    (live, call (bind_user "host" 1 "" 0))
    ∷ (live, call (bind_host "host" "room"))
    ∷ (live, call (bind_user "C-guest" 2 "" 0))
    ∷ (live, call (bind_guest_with "C-guest" "room" 2))
    ∷ []

join-EmptyExpired : EmptyExpired join
join-EmptyExpired = (refl, (refl, (refl, (refl, tt))))

joined_room : Manager
joined_room = run started join

joined_room-IsSound : IsSound joined_room
unfolding joined_room
joined_room-IsSound = run-IsSound started join join-EmptyExpired started-IsSound

guest_in_room : is_connection_in_transmission live joined_room 2 "room" ≡ true
unfolding joined_room run handle perform bind_user_to_ws_handle bind_guest_connection
    bind_host_to_transmission bind_guest_to_transmission is_transmission_exist
    is_host_of_transmission get_all_user_id_of_transmission is_temporary_controller_id
    is_connection_in_transmission set_remote_control_session_callback same_connection find
    set_ordered contains get_user_id update_last_active_time
guest_in_room = refl

in_transmission-HasAccess_example :
    (live 2 ≡ false)
    × (find 2 joined_room.users ≡ some (get_user_id joined_room 2))
    × HasAccess joined_room 2 "room" (get_user_id joined_room 2)
in_transmission-HasAccess_example =
    in_transmission-HasAccess live joined_room 2 "room" joined_room-IsSound guest_in_room

-- A room that is restored before the callback is set.
abbrev restored : List ((Handle → Bool) × Event)
restored = (live, call (bind_host "host" "room")) ∷ (live, call (bind_guest "C-old" "room")) ∷ []

restored-EmptyExpired : EmptyExpired restored
restored-EmptyExpired = (refl, (refl, tt))

-- Its guest leaves, and another joins.
abbrev afterwards : List ((Handle → Bool) × Event)
afterwards =
    (live, call (bind_user "C-guest" 2 "" 0))
    ∷ (live, call (bind_guest_with "C-guest" "room" 2))
    ∷ (live, call (release_guest "C-old" "room"))
    ∷ []

changed : Manager
changed = run (set_remote_control_session_callback (run new_manager restored) true) afterwards

told :
    changed.delivered
    ≡ remote_control "room" "host" "C-guest" true ∷ remote_control "room" "host" "C-old" false ∷ []
unfolding changed run handle perform bind_user_to_ws_handle bind_guest_connection
    bind_host_to_transmission bind_guest_to_transmission is_transmission_exist
    is_host_of_transmission get_all_user_id_of_transmission is_temporary_controller_id
    release_guest_from_transmission get_host_id_of_transmission set_remote_control_session_callback
    same_connection find set_ordered contains remove get_user_id update_last_active_time
told = refl

afterwards-KeepCallback : KeepCallback afterwards
unfolding KeepCallback KeepsCallback
afterwards-KeepCallback = (tt, (tt, (tt, tt)))

replay-delivered-run_example :
    let s = run new_manager restored in
    let t = run (set_remote_control_session_callback s true) afterwards in
    (since : List Note) × ((t.delivered ≡ s.delivered ++ since)
      × ((room guest : String)
          → replay since (guests_of s) room guest ≡ contains (guests_in room t.guests) guest))
replay-delivered-run_example =
    replay-delivered-run restored afterwards restored-EmptyExpired (refl, (refl, (refl, tt)))
      afterwards-KeepCallback

-- The server's start: a restored guest, then the callback, then two logins and a join.
abbrev server_start : List ((Handle → Bool) × Event)
server_start =
    (live, call (bind_host "host" "room"))
    ∷ (live, call (bind_guest "C-old" "room"))
    ∷ (live, call (remote_callback true))
    ∷ join

run-IsSound_example : IsSound (run new_manager server_start)
run-IsSound_example =
    run-IsSound new_manager server_start (refl, (refl, (refl, join-EmptyExpired)))
      new_manager-IsSound

released_lem_example :
    let t = (release_user_from_ws_handle joined_room 2).0 in
    (find 2 t.users ≡ none)
    × (find 2 t.devices ≡ none)
    × (find 2 t.last_active ≡ none)
    × ((u : String) → find u t.routes ≢ some 2)
    × ((h : Handle) → find h t.users ≡ (if 2 == h then none else find h joined_room.users))
released_lem_example = released_lem joined_room 2 joined_room-IsSound.sockets

abbrev three_rooms : Manager
three_rooms = record new_manager {
  hosts = ("a", "h1") ∷ ("b", "h2") ∷ ("c", "h3") ∷ [];
  guests = ("a", "g" ∷ []) ∷ ("c", "g" ∷ "k" ∷ []) ∷ [];
}

-- The second page of the rooms in use: room "b" has no guests.
get_transmission_snapshots_lem_example : get_transmission_snapshots three_rooms 1 1 "" true ≡ (
  record {
    transmission_id = "c";
    host_id = "h3";
    guest_ids = "g" ∷ "k" ∷ [];
    participant_count = 3;
    is_active = true;
  }
      ∷ [],
  2,
)
unfolding keep is_shown snapshot_of find
get_transmission_snapshots_lem_example = get_transmission_snapshots_lem three_rooms 1 1 "" true
