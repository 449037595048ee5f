-- ===== src/Transmission/Soundness.antt =====
-- What holds between the operations of TransmissionManager, whoever calls them.
use crossdesk_server.Common.{
  ℕ, String, ◌≡◌, refl, ap, ◌∙◌, Bool, true, [], ◌++◌, contains, string_key,
}
use crossdesk_server.Transmission.State.{Handle, Manager, set_remote_control_session_callback}
use crossdesk_server.Transmission.Rooms.{bind_host_to_transmission, release_guest_from_transmission}
use crossdesk_server.Transmission.Rooms.Invariant.{HasRooms, guests_in}
use crossdesk_server.Transmission.Rooms.Notes.{Start, View}
use crossdesk_server.Transmission.Rooms.Operations.{
  IsSoundAt, bind_host-IsSoundAt, release_guest-IsSoundAt,
}
use crossdesk_server.Transmission.Connections.{bind_guest_connection, bind_user_to_ws_handle}
use crossdesk_server.Transmission.Connections.Invariant.{HasSockets}
use crossdesk_server.Transmission.Connections.Binding.{
  bind_guest_connection-IsSoundAt, bind_user-IsSoundAt,
}

-- The rooms and the connections are sound, no scope is open and no notification waits. It holds
-- whether or not the callback is set, and whoever was notified.
pub record IsSound (s : Manager) : Type 0 where
  pub rooms : HasRooms s
  pub sockets : HasSockets s
  pub outside : s.lock_depth ≡ 0
  pub settled : s.pending ≡ []

-- Who is a guest of which room.
abbrev pub guests_of : Manager → View
guests_of s room guest = contains (guests_in room s.guests) guest

-- A state outside every scope, as the start of what follows.
abbrev pub from_now : Manager → Start
from_now s = record {
  depth = 0;
  callback = s.remote_callback;
  past = s.delivered;
  view = guests_of s;
}

pub from_now-IsSoundAt : (s : Manager) → IsSound s → IsSoundAt (from_now s) s
from_now-IsSoundAt s v = record {
  rooms = v.rooms;
  mirror = λ c. ([], (ap (λ p. s.delivered ++ p) v.settled, λ room guest. refl));
  sockets = v.sockets;
  callback = refl;
  depth = v.outside;
  settled = λ e. v.settled;
}

pub kept-IsSound : (b : Start) (t : Manager) → b.depth ≡ 0 → IsSoundAt b t → IsSound t
kept-IsSound b t e v = record {
  rooms = v.rooms;
  sockets = v.sockets;
  outside = v.depth ∙ e;
  settled = v.settled e;
}

pub bind_host-IsSound :
    (s : Manager) (host room : String)
    → IsSound s
    → IsSound (bind_host_to_transmission s host room).0
bind_host-IsSound s host room v =
    kept-IsSound (from_now s) _ refl
      (bind_host-IsSoundAt (from_now s) s host room (from_now-IsSoundAt s v))

pub release_guest-IsSound :
    (s : Manager) (guest room : String)
    → IsSound s
    → IsSound (release_guest_from_transmission s guest room).0
release_guest-IsSound s guest room v =
    kept-IsSound (from_now s) _ refl
      (release_guest-IsSoundAt (from_now s) s guest room (from_now-IsSoundAt s v))

pub bind_guest_connection-IsSound :
    (expired : Handle → Bool) (s : Manager) (guest room : String) (hdl : Handle)
    → IsSound s
    → IsSound (bind_guest_connection expired s guest room hdl).0
bind_guest_connection-IsSound expired s guest room hdl v =
    kept-IsSound (from_now s) _ refl (
      bind_guest_connection-IsSoundAt expired (from_now s) s guest room hdl
        (from_now-IsSoundAt s v))

pub bind_user-IsSound :
    (expired : Handle → Bool) (s : Manager) (user : String) (hdl : Handle) (device : String)
    (now : ℕ)
    → expired 0 ≡ true
    → IsSound s
    → IsSound (bind_user_to_ws_handle expired s user hdl device now).0
bind_user-IsSound expired s user hdl device now x v =
    kept-IsSound (from_now s) _ refl
      (bind_user-IsSoundAt expired (from_now s) s user hdl device now x (from_now-IsSoundAt s v))

pub set_callback-IsSound :
    (s : Manager) (callback : Bool)
    → IsSound s
    → IsSound (set_remote_control_session_callback s callback)
unfolding set_remote_control_session_callback
set_callback-IsSound s callback v = record {
  rooms = v.rooms;
  sockets = v.sockets;
  outside = v.outside;
  settled = v.settled;
}
