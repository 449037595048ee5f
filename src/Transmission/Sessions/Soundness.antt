-- ===== src/Transmission/Sessions/Soundness.antt =====
-- Ending sessions, pruning and the watchdog keep the invariant.
use mathlib.Core.List.{append-nil, append_assoc}
use crossdesk_server.Common.{
  ℕ, ◌<◌, ◌+◌, ◌*◌, String, Bool, true, false, ◌||◌, List, [], ◌∷◌, ◌++◌, ◌==◌, if◌then◌else◌,
  string_key, nat_key, Assoc, erase, ltb, find-erase, Bool-cases, inl, inr, arith,
}
use crossdesk_server.Transmission.State.{
  Handle, Note, session_timeout, Manager, has_user_connection,
}
use crossdesk_server.Transmission.Rooms.{
  is_host, release_transmission, release_guest_from_transmission, release_guest_everywhere,
}
use crossdesk_server.Transmission.Rooms.Notes.{
  Start, View, Mirrors, Follows, Follows-more, replay-append,
}
use crossdesk_server.Transmission.Rooms.Operations.{
  deeper, IsSoundAt, scoped-IsSoundAt, release_transmission-IsSoundAt, release_guest-IsSoundAt,
  release_guest_everywhere-IsSoundAt,
}
use crossdesk_server.Transmission.Connections.{release_user_from_ws_handle, remove_last_active_time}
use crossdesk_server.Transmission.Connections.Release.{release_user-IsSoundAt}
use crossdesk_server.Transmission.Sessions.{
  release_user_session, end_session, finish_session, release_hosted, release_from_rooms,
  joined_transmissions, prune_disconnected_transmissions, prune_both, prune_rooms, prune_guests,
  disconnected_guests, disconnected_transmissions, expire_inactive_sessions, expire_loop,
  expire_connection, second,
}

release_from_rooms-IsSoundAt :
    (b : Start) (s : Manager) (user : String) (rooms : List String)
    → IsSoundAt b s
    → IsSoundAt b (release_from_rooms s user rooms)
unfolding release_from_rooms
release_from_rooms-IsSoundAt b s user [] v = v
release_from_rooms-IsSoundAt b s user (room ∷ rest) v =
    release_from_rooms-IsSoundAt b (release_guest_from_transmission s user room).0 user rest
      (release_guest-IsSoundAt b s user room v)

release_hosted-IsSoundAt :
    (b : Start) (s : Manager) (user : String) → IsSoundAt b s → IsSoundAt b (release_hosted s user)
unfolding release_hosted
release_hosted-IsSoundAt b s user v = elim (Bool-cases (is_host s user == "")) [
  | inl e ↦ rw e v
  | inr e ↦ rw e (release_transmission-IsSoundAt b s (is_host s user) v)
]

finish_session-IsSoundAt :
    (b : Start) (s : Manager) (user : String)
    → IsSoundAt b s
    → IsSoundAt b (finish_session s user).0
unfolding finish_session
finish_session-IsSoundAt b s user v = elim (Bool-cases (has_user_connection s.users user)) [
  | inl e ↦ rw e v
  | inr e ↦ rw e (
      release_hosted-IsSoundAt b (release_guest_everywhere s user).0 user
        (release_guest_everywhere-IsSoundAt b s user v))
]

end_session-IsSoundAt :
    (b : Start) (hdl : Handle) (s : Manager) (user : String)
    → IsSoundAt b s
    → IsSoundAt b (end_session hdl (s, user)).0
unfolding end_session
end_session-IsSoundAt b hdl s user v = elim (Bool-cases (user == "")) [
  | inl e ↦ rw e v
  | inr e ↦ rw e (
      finish_session-IsSoundAt b
        (release_from_rooms s user (joined_transmissions user hdl s.grants)) user
        (release_from_rooms-IsSoundAt b s user (joined_transmissions user hdl s.grants) v))
]

pub release_user_session-IsSoundAt :
    (b : Start) (s : Manager) (hdl : Handle)
    → IsSoundAt b s
    → IsSoundAt b (release_user_session s hdl).0
unfolding release_user_session
release_user_session-IsSoundAt b s hdl v =
    scoped-IsSoundAt b (λ t. end_session hdl (release_user_from_ws_handle t hdl)) s
      (λ t w.
        end_session-IsSoundAt (deeper b) hdl (release_user_from_ws_handle t hdl).0
          (release_user_from_ws_handle t hdl).1 (release_user-IsSoundAt (deeper b) t hdl w))
      v

prune_rooms-IsSoundAt :
    (b : Start) (s : Manager) (rooms : List String)
    → IsSoundAt b s
    → IsSoundAt b (prune_rooms s rooms).0
unfolding prune_rooms
prune_rooms-IsSoundAt b s [] v = v
prune_rooms-IsSoundAt b s (room ∷ rest) v =
    prune_rooms-IsSoundAt b (release_transmission s room).0 rest
      (release_transmission-IsSoundAt b s room v)

prune_guests-IsSoundAt :
    (b : Start) (s : Manager) (guests : List (String × String))
    → IsSoundAt b s
    → IsSoundAt b (prune_guests s guests).0
unfolding prune_guests
prune_guests-IsSoundAt b s [] v = v
prune_guests-IsSoundAt b s ((guest, room) ∷ rest) v =
    prune_guests-IsSoundAt b (release_guest_from_transmission s guest room).0 rest
      (release_guest-IsSoundAt b s guest room v)

abbrev unwatched : Manager → Handle → Manager
unwatched s hdl = record s { last_active = erase hdl s.last_active }

unwatched-IsSoundAt :
    (b : Start) (s : Manager) (hdl : Handle) → IsSoundAt b s → IsSoundAt b (unwatched s hdl)
unwatched-IsSoundAt b s hdl v = record {
  rooms = v.rooms;
  mirror = v.mirror;
  callback = v.callback;
  depth = v.depth;
  settled = v.settled;
  sockets = record {
    routed = v.sockets.routed;
    reachable = v.sockets.reachable;
    owned = v.sockets.owned;
    named = v.sockets.named;
    watched = λ h e. ground (arith, find-erase hdl h s.last_active, v.sockets.watched h);
    verified = v.sockets.verified;
    increasing = v.sockets.increasing;
  };
}

pub remove_active-IsSoundAt :
    (b : Start) (s : Manager) (hdl : Handle)
    → IsSoundAt b s
    → IsSoundAt b (remove_last_active_time s hdl)
unfolding remove_last_active_time
remove_active-IsSoundAt b s hdl v = unwatched-IsSoundAt b s hdl v

timed_out : (b : Bool) (p : List Note) (hdl : Handle) (user : String) → List Note
timed_out b p hdl user = p ++ (if b then session_timeout hdl user ∷ [] else [])

-- A timeout says nothing of rooms.
Mirrors-timed_out :
    (view : View) (since : List Note) (guests : Assoc String (List String)) (hdl : Handle)
    (user : String)
    → Mirrors view since guests
    → Mirrors view (since ++ session_timeout hdl user ∷ []) guests
Mirrors-timed_out view since guests hdl user m room guest =
    rw (replay-append since (session_timeout hdl user ∷ []) view) (m room guest)

Follows-timed_out :
    (b : Start) (c : Bool) (d p : List Note) (guests : Assoc String (List String)) (hdl : Handle)
    (user : String)
    → Follows b (d ++ p) guests
    → Follows b (d ++ timed_out c p hdl user) guests
unfolding timed_out
Follows-timed_out b true d p guests hdl user f =
    rw (← append_assoc d p (session_timeout hdl user ∷ [])) (
      Follows-more b (d ++ p) (session_timeout hdl user ∷ []) guests guests
        (λ since m. Mirrors-timed_out b.view since guests hdl user m) f)
Follows-timed_out b false d p guests hdl user f = rw (append-nil p) f

timeout-IsSoundAt :
    (b : Start) (s : Manager) (hdl : Handle) (user : String)
    → 0 < b.depth
    → IsSoundAt b s
    → IsSoundAt b (record s {
      pending = s.pending ++ (if s.timeout_callback then session_timeout hdl user ∷ [] else []);
    })
unfolding timed_out
timeout-IsSoundAt b s hdl user o v = record {
  rooms = v.rooms;
  mirror = λ c.
      Follows-timed_out b s.timeout_callback s.delivered s.pending s.guests hdl user (v.mirror c);
  sockets = v.sockets;
  callback = v.callback;
  depth = v.depth;
  settled = λ e. absurd (omega (arith, o, e));
}

module _ (expired : Handle → Bool) where
  pub prune-IsSoundAt :
      (b : Start) (s : Manager)
      → IsSoundAt b s
      → IsSoundAt b (prune_disconnected_transmissions expired s).0
  unfolding prune_disconnected_transmissions prune_both
  prune-IsSoundAt b s v =
      scoped-IsSoundAt b (prune_both expired) s
        (λ t w.
          let r = prune_rooms t (disconnected_transmissions t.users t.hosts) in
          prune_guests-IsSoundAt (deeper b) r.0 (disconnected_guests expired r.0 r.0.guests)
            (prune_rooms-IsSoundAt (deeper b) t (disconnected_transmissions t.users t.hosts) w))
        v

  expire_connection-IsSoundAt :
      (b : Start) (s : Manager) (hdl : Handle)
      → 0 < b.depth
      → IsSoundAt b s
      → IsSoundAt b (expire_connection expired s hdl)
  unfolding expire_connection
  expire_connection-IsSoundAt b s hdl o v =
      timeout-IsSoundAt b (release_user_session (unwatched s hdl) hdl).0 hdl
        (release_user_session (unwatched s hdl) hdl).1 o
        (release_user_session-IsSoundAt b (unwatched s hdl) hdl (unwatched-IsSoundAt b s hdl v))

  expire_loop-IsSoundAt :
      (b : Start) (now : ℕ) (entries : Assoc Handle ℕ) (s : Manager)
      → 0 < b.depth
      → IsSoundAt b s
      → IsSoundAt b (expire_loop expired now entries s)
  unfolding expire_loop
  expire_loop-IsSoundAt b now [] s o v = v
  expire_loop-IsSoundAt b now ((hdl, time) ∷ rest) s o v =
      elim (Bool-cases (expired hdl || ltb (time + 30 * second) now)) [
        | inl e ↦ rw e (
            expire_loop-IsSoundAt b now rest (expire_connection expired s hdl) o
              (expire_connection-IsSoundAt b s hdl o v))
        | inr e ↦ rw e (expire_loop-IsSoundAt b now rest s o v)
      ]

  pub expire-IsSoundAt :
      (b : Start) (s : Manager) (now : ℕ)
      → IsSoundAt b s
      → IsSoundAt b (expire_inactive_sessions expired s now)
  unfolding expire_inactive_sessions
  expire-IsSoundAt b s now v =
      scoped-IsSoundAt {0} b (λ t. (expire_loop expired now t.last_active t, tt)) s
        (λ t w. expire_loop-IsSoundAt (deeper b) now t.last_active t (omega arith) w) v
