-- ===== src/Transmission/Connections/Access.antt =====
-- Which connections speak for a room, and what a connection can and cannot become.
use crossdesk_server.Common.{
  ℕ, ◌<◌, String, ◌≡◌, refl, sym, Bool, true, false, ◌||◌, Option, none, some, ◌==◌, or_else,
  contains, string_key, nat_key, Assoc, find, Bool-cases, inl, inr, ==_refl, arith,
}
use crossdesk_server.Transmission.State.{Handle, Manager}
use crossdesk_server.Transmission.Rooms.Invariant.{guests_in, handles_in}
use crossdesk_server.Transmission.Soundness.{IsSound}
use crossdesk_server.Transmission.Connections.Invariant.{same_connection_iff}
use crossdesk_server.Transmission.Connections.Release.{released_maps}
use crossdesk_server.Transmission.Connections.{
  get_user_id, get_ws_handle, granted_handle, room_handle, get_room_handle,
  is_connection_in_transmission, update_last_active_time, release_user_from_ws_handle,
}

-- The connection of the room's host that messages are routed to, or a connection that was let in.
pub data HasAccess (s : Manager) (hdl : Handle) (room user : String) : Type 0 where
  hosting :
      find room s.hosts ≡ some user → find user s.routes ≡ some hdl → HasAccess s hdl room user
  invited :
      find user (handles_in room s.grants) ≡ some hdl
      → contains (guests_in room s.guests) user ≡ true
      → HasAccess s hdl room user

granted_handle-HasAccess :
    (s : Manager) (hdl : Handle) (room user : String) (o : Option (Assoc String Handle))
    → IsSound s
    → find room s.grants ≡ o
    → 0 < hdl
    → granted_handle s user o ≡ hdl
    → HasAccess s hdl room user
unfolding granted_handle
granted_handle-HasAccess s hdl room user none v e p h = absurd (ground arith)
granted_handle-HasAccess s hdl room user (some hs) v e p h =
    invited found (v.rooms.granted room user (rw found refl))
  where
    found : find user (handles_in room s.grants) ≡ some hdl
    found = rw e (ground arith)

room_handle-HasAccess :
    (s : Manager) (hdl : Handle) (room user : String) (o : Option String)
    → IsSound s
    → find room s.hosts ≡ o
    → 0 < hdl
    → room_handle s user room o ≡ hdl
    → HasAccess s hdl room user
unfolding room_handle get_ws_handle
room_handle-HasAccess s hdl room user none v e p h = absurd (ground arith)
room_handle-HasAccess s hdl room user (some host) v e p h = elim (Bool-cases (host == user)) [
  | inl q ↦ hosting (ground (arith, string_key.beq_iff host user)) (ground arith)
  | inr o ↦ granted_handle-HasAccess s hdl room user (find room s.grants) v refl p (rw o at h)
]

room_handle_of :
    (s : Manager) (user room : String) (h : Handle)
    → h ≡ get_room_handle s user room
    → 0 < h
    → ((user == "") ≡ false) × (room_handle s user room (find room s.hosts) ≡ h)
unfolding get_room_handle
room_handle_of s user room h e p = elim (Bool-cases (user == "" || room == "")) [
  | inl c ↦ absurd (zero_handle (rw c at e))
  | inr c ↦ (ground arith, sym (rw c at e))
]
  where
    zero_handle : h ≡ 0 → ⊥
    zero_handle q = omega arith

known_user :
    (s : Manager) (hdl : Handle)
    → (get_user_id s hdl == "") ≡ false
    → find hdl s.users ≡ some (get_user_id s hdl)
unfolding get_user_id
known_user s hdl h = by_case (find hdl s.users) h
  where
    by_case : (o : Option String) → (or_else o "" == "") ≡ false → o ≡ some (or_else o "")
    by_case none h = cc
    by_case (some u) h = refl

-- Where the rooms and the connections are sound, a connection counts as part of a room only if it
-- has not expired, speaks for a user, and is the host's route or was let in as one of the room's
-- guests.
pub in_transmission-HasAccess :
    (expired : Handle → Bool) (s : Manager) (hdl : Handle) (room : String)
    → IsSound s
    → is_connection_in_transmission expired s hdl room ≡ true
    → (expired hdl ≡ false)
      × (find hdl s.users ≡ some (get_user_id s hdl))
      × HasAccess s hdl room (get_user_id s hdl)
unfolding is_connection_in_transmission
in_transmission-HasAccess expired s hdl room v h =
    let (same, own) =
      (same_connection_iff hdl (get_room_handle s (get_user_id s hdl) room)).0 (ground arith) in
    let (named, routed) = room_handle_of s (get_user_id s hdl) room hdl same own in
    (
      ground arith,
      known_user s hdl named,
      room_handle-HasAccess s hdl room (get_user_id s hdl) (find room s.hosts) v refl own routed,
    )

-- A late heartbeat does not revive a released connection: after a release it is refused and changes
-- nothing, whatever the time.
pub heartbeat_released :
    (s : Manager) (hdl : Handle) (now : ℕ)
    → let t = (release_user_from_ws_handle s hdl).0 in
      update_last_active_time t hdl now ≡ (t, false)
unfolding update_last_active_time
heartbeat_released s hdl now = rw ((released_maps s hdl).0 hdl, ==_refl hdl) refl

-- The connection by which a room reaches a user has access to it.
pub get_room_handle-HasAccess :
    (s : Manager) (user room : String)
    → IsSound s
    → 0 < get_room_handle s user room
    → HasAccess s (get_room_handle s user room) room user
get_room_handle-HasAccess s user room v h =
    let (named, routed) = room_handle_of s user room (get_room_handle s user room) refl h in
    room_handle-HasAccess s (get_room_handle s user room) room user (find room s.hosts) v refl h
      routed
