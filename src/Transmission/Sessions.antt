-- ===== src/Transmission/Sessions.antt =====
-- The end of sessions: a released connection, the removal of rooms and guests without one, and the
-- watchdog for silent connections.
pub mod Soundness
use crossdesk_server.Common.{
  ℕ, suc, ◌+◌, ◌*◌, String, Bool, true, false, ◌&&◌, ◌||◌, not, Option, none, some, List, [], ◌∷◌,
  ◌++◌, map, ltb, ◌==◌, if◌then◌else◌, or_else, length, is_empty, nat_key, string_key, Assoc, find,
  erase,
}
use crossdesk_server.Transmission.State.{
  Handle, Note, session_timeout, Manager, enter, leave, scoped, same_connection,
  has_user_connection,
}
use crossdesk_server.Transmission.Rooms.{
  is_host, release_transmission, release_guest_from_transmission, release_guest_everywhere,
}
use crossdesk_server.Transmission.Connections.{get_user_id, release_user_from_ws_handle}

abbrev pub second : ℕ
second = 1000000000

-- The rooms to which this very connection was given access as a guest.
joined_transmissions : String → Handle → Assoc String (Assoc String Handle) → List String
joined_transmissions user_id hdl [] = []
joined_transmissions user_id hdl ((transmission_id, handles) ∷ rest) =
    let later = joined_transmissions user_id hdl rest in
    elim (find user_id handles) [
      | none ↦ later
      | some granted ↦ if same_connection granted hdl then transmission_id ∷ later else later
    ]

release_from_rooms : Manager → String → List String → Manager
release_from_rooms s user_id [] = s
release_from_rooms s user_id (transmission_id ∷ rest) =
    release_from_rooms (release_guest_from_transmission s user_id transmission_id).0 user_id rest

release_hosted : Manager → String → Manager
release_hosted s user_id =
    let transmission_id = is_host s user_id in
    if not (transmission_id == "") then (release_transmission s transmission_id).0 else s

finish_session : Manager → String → Manager × String
unfolding release_hosted
finish_session s user_id =
    if has_user_connection s.users user_id
    then (s, "")
    else (release_hosted (release_guest_everywhere s user_id).0 user_id, user_id)

end_session : Handle → Manager × String → Manager × String
unfolding finish_session release_from_rooms joined_transmissions
end_session hdl (s, user_id) =
    if user_id == ""
    then (s, "")
    else finish_session (release_from_rooms s user_id (joined_transmissions user_id hdl s.grants))
        user_id

pub release_user_session : Manager → Handle → Manager × String
unfolding end_session
release_user_session s hdl = scoped (λ t. end_session hdl (release_user_from_ws_handle t hdl)) s

disconnected_transmissions : Assoc Handle String → Assoc String String → List String
disconnected_transmissions users [] = []
disconnected_transmissions users ((transmission_id, host_id) ∷ rest) =
    let later = disconnected_transmissions users rest in
    if not (has_user_connection users host_id) then transmission_id ∷ later else later

prune_rooms : Manager → List String → Manager × ℕ
prune_rooms s [] = (s, 0)
prune_rooms s (transmission_id ∷ rest) =
    let guest_count = length (or_else (find transmission_id s.guests) []) in
    let later = prune_rooms (release_transmission s transmission_id).0 rest in
    (later.0, guest_count + later.1)

prune_guests : Manager → List (String × String) → Manager × ℕ
prune_guests s [] = (s, 0)
prune_guests s ((guest_id, transmission_id) ∷ rest) =
    let r = release_guest_from_transmission s guest_id transmission_id in
    let later = prune_guests r.0 rest in (later.0, (if r.1 then 1 else 0) + later.1)

module _ (expired : Handle → Bool) where
  -- With access to the room the guest's own connection counts, without it any connection.
  guest_connected : Manager → String → Option (Assoc String Handle) → Bool
  guest_connected s guest_id none = has_user_connection s.users guest_id
  guest_connected s guest_id (some handles) = elim (find guest_id handles) [
    | none ↦ has_user_connection s.users guest_id
    | some hdl ↦ not (expired hdl) && get_user_id s hdl == guest_id
  ]

  lost_guests : Manager → String → List String → List (String × String)
  unfolding guest_connected
  lost_guests s transmission_id [] = []
  lost_guests s transmission_id (guest_id ∷ rest) =
      let later = lost_guests s transmission_id rest in
      if not (guest_connected s guest_id (find transmission_id s.grants))
      then (guest_id, transmission_id) ∷ later
      else later

  disconnected_guests : Manager → Assoc String (List String) → List (String × String)
  unfolding lost_guests
  disconnected_guests s [] = []
  disconnected_guests s ((transmission_id, guest_ids) ∷ rest) =
      lost_guests s transmission_id guest_ids ++ disconnected_guests s rest

  prune_both : Manager → Manager × ℕ
  unfolding prune_rooms prune_guests disconnected_guests disconnected_transmissions
  prune_both s =
      let rooms = prune_rooms s (disconnected_transmissions s.users s.hosts) in
      let guests = prune_guests rooms.0 (disconnected_guests rooms.0 rooms.0.guests) in
      (guests.0, rooms.1 + guests.1)

  pub prune_disconnected_transmissions : Manager → Manager × ℕ
  unfolding prune_both
  prune_disconnected_transmissions s = scoped prune_both s

  pub expire_connection : Manager → Handle → Manager
  unfolding release_user_session
  expire_connection s hdl =
      let r = release_user_session (record s { last_active = erase hdl s.last_active }) hdl in
      record r.0 {
        pending =
            r.0.pending ++ (if r.0.timeout_callback then session_timeout hdl r.1 ∷ [] else []);
      }

  -- The loop visits the entries that were there at its start; a round removes none but its own.
  expire_loop : ℕ → Assoc Handle ℕ → Manager → Manager
  unfolding expire_connection
  expire_loop now [] s = s
  expire_loop now ((hdl, time) ∷ rest) s =
      expire_loop now rest
        (if expired hdl || ltb (time + 30 * second) now then expire_connection s hdl else s)

  pub expire_inactive_sessions : Manager → ℕ → Manager
  unfolding expire_loop
  expire_inactive_sessions s now = (scoped {0} (λ t. (expire_loop now t.last_active t, tt)) s).0

active_guests : Manager → Assoc String String → ℕ
active_guests s [] = 0
active_guests s ((transmission_id, host_id) ∷ rest) =
    length (or_else (find transmission_id s.guests) []) + active_guests s rest

pub get_active_connection_count : Manager → ℕ
unfolding active_guests
get_active_connection_count s = active_guests s s.hosts
