-- ===== src/Transmission/Calls.antt =====
-- The public operations of TransmissionManager that change its state, in any order.
use mathlib.Core.List.{append-nil}
use crossdesk_server.Common.{
  ℕ, String, ◌≡◌, ◌⊎◌, refl, sym, ap, ◌∙◌, Bool, true, List, [], ◌∷◌, ◌++◌, inl, inr, contains,
  string_key, nat_key, find,
}
use crossdesk_server.Transmission.State.{
  Handle, Note, Manager, new_manager, set_remote_control_session_callback,
  set_session_timeout_callback,
}
use crossdesk_server.Transmission.Rooms.{
  release_transmission, bind_host_to_transmission, bind_guest_to_transmission,
  release_guest_from_transmission, release_guest_everywhere, disconnect_transmission,
}
use crossdesk_server.Transmission.Rooms.Invariant.{guests_in}
use crossdesk_server.Transmission.Rooms.Notes.{Start, replay}
use crossdesk_server.Transmission.Rooms.Operations.{
  IsSoundAt, release_transmission-IsSoundAt, bind_host-IsSoundAt, bind_guest-IsSoundAt,
  release_guest-IsSoundAt, release_guest_everywhere-IsSoundAt, disconnect-IsSoundAt,
}
use crossdesk_server.Transmission.Connections.{
  bind_user_to_ws_handle, bind_guest_connection, update_last_active_time, remove_last_active_time,
  release_user_from_ws_handle,
}
use crossdesk_server.Transmission.Connections.Binding.{
  bind_user-IsSoundAt, bind_guest_connection-IsSoundAt, update_active-IsSoundAt,
}
use crossdesk_server.Transmission.Connections.Release.{release_user-IsSoundAt}
use crossdesk_server.Transmission.Sessions.{
  release_user_session, prune_disconnected_transmissions, expire_inactive_sessions,
}
use crossdesk_server.Transmission.Sessions.Soundness.{
  release_user_session-IsSoundAt, prune-IsSoundAt, expire-IsSoundAt, remove_active-IsSoundAt,
}
use crossdesk_server.Transmission.Soundness.{
  IsSound, guests_of, from_now, from_now-IsSoundAt, kept-IsSound, set_callback-IsSound,
}

pub data Call : Type 0 where
  bind_host : String → String → Call
  bind_guest : String → String → Call
  bind_guest_with : String → String → Handle → Call
  bind_user : String → Handle → String → ℕ → Call
  release_guest : String → String → Call
  release_guest_from_all : String → Call
  release_room disconnect_room : String → Call
  release_session release_user remove_active : Handle → Call
  heartbeat : Handle → ℕ → Call
  remote_callback timeout_callback : Bool → Call

-- Which handles have expired may change from call to call.
pub data Event : Type 0 where
  call : Call → Event
  prune : Event
  expire : ℕ → Event

unfoldable pub perform : (Handle → Bool) → Manager → Call → Manager
perform expired s (bind_host host room) = (bind_host_to_transmission s host room).0
perform expired s (bind_guest guest room) = (bind_guest_to_transmission s guest room).0
perform expired s (bind_guest_with guest room hdl) =
    (bind_guest_connection expired s guest room hdl).0
perform expired s (bind_user user hdl device now) =
    (bind_user_to_ws_handle expired s user hdl device now).0
perform expired s (release_guest guest room) = (release_guest_from_transmission s guest room).0
perform expired s (release_guest_from_all guest) = (release_guest_everywhere s guest).0
perform expired s (release_room room) = (release_transmission s room).0
perform expired s (disconnect_room room) = (disconnect_transmission s room).0
perform expired s (release_session hdl) = (release_user_session s hdl).0
perform expired s (release_user hdl) = (release_user_from_ws_handle s hdl).0
perform expired s (remove_active hdl) = remove_last_active_time s hdl
perform expired s (heartbeat hdl now) = (update_last_active_time s hdl now).0
perform expired s (remote_callback set) = set_remote_control_session_callback s set
perform expired s (timeout_callback set) = set_session_timeout_callback s set

unfoldable pub handle : (Handle → Bool) → Manager → Event → Manager
unfolding perform
handle expired s (call c) = perform expired s c
handle expired s prune = (prune_disconnected_transmissions expired s).0
handle expired s (expire now) = expire_inactive_sessions expired s now

unfoldable pub run : Manager → List ((Handle → Bool) × Event) → Manager
run s [] = s
run s ((expired, e) ∷ events) = run (handle expired s e) events

-- In every call the empty handle has expired, as a `std::weak_ptr` that never had an owner.
abbrev pub EmptyExpired : List ((Handle → Bool) × Event) → Type 0
EmptyExpired [] = Unit {0}
EmptyExpired ((expired, e) ∷ events) = (expired 0 ≡ true) × EmptyExpired events

-- The call is not one that sets the callback for remote control.
unfoldable pub KeepsCallback : Event → Type 0
KeepsCallback (call (remote_callback set)) = ⊥
KeepsCallback e = Unit

unfoldable pub KeepCallback : List ((Handle → Bool) × Event) → Type 0
KeepCallback [] = Unit
KeepCallback ((expired, e) ∷ events) = KeepsCallback e × KeepCallback events

perform-IsSoundAt :
    (b : Start) (expired : Handle → Bool) (s : Manager) (c : Call)
    → expired 0 ≡ true
    → KeepsCallback (call c)
    → IsSoundAt b s
    → IsSoundAt b (perform expired s c)
unfolding perform KeepsCallback
perform-IsSoundAt b expired s (bind_host host room) x k v = bind_host-IsSoundAt b s host room v
perform-IsSoundAt b expired s (bind_guest guest room) x k v = bind_guest-IsSoundAt b s guest room v
perform-IsSoundAt b expired s (bind_guest_with guest room hdl) x k v =
    bind_guest_connection-IsSoundAt expired b s guest room hdl v
perform-IsSoundAt b expired s (bind_user user hdl device now) x k v =
    bind_user-IsSoundAt expired b s user hdl device now x v
perform-IsSoundAt b expired s (release_guest guest room) x k v =
    release_guest-IsSoundAt b s guest room v
perform-IsSoundAt b expired s (release_guest_from_all guest) x k v =
    release_guest_everywhere-IsSoundAt b s guest v
perform-IsSoundAt b expired s (release_room room) x k v = release_transmission-IsSoundAt b s room v
perform-IsSoundAt b expired s (disconnect_room room) x k v = disconnect-IsSoundAt b s room v
perform-IsSoundAt b expired s (release_session hdl) x k v = release_user_session-IsSoundAt b s hdl v
perform-IsSoundAt b expired s (release_user hdl) x k v = release_user-IsSoundAt b s hdl v
perform-IsSoundAt b expired s (remove_active hdl) x k v = remove_active-IsSoundAt b s hdl v
perform-IsSoundAt b expired s (heartbeat hdl now) x k v = update_active-IsSoundAt b s hdl now v
perform-IsSoundAt b expired s (remote_callback set) x k v = absurd k
perform-IsSoundAt b expired s (timeout_callback set) x k v =
    unfold set_session_timeout_callback in
    record {
      rooms = v.rooms;
      mirror = v.mirror;
      sockets = v.sockets;
      callback = v.callback;
      depth = v.depth;
      settled = v.settled;
    }

handle-IsSoundAt :
    (b : Start) (expired : Handle → Bool) (s : Manager) (e : Event)
    → expired 0 ≡ true
    → KeepsCallback e
    → IsSoundAt b s
    → IsSoundAt b (handle expired s e)
unfolding handle
handle-IsSoundAt b expired s (call c) x k v = perform-IsSoundAt b expired s c x k v
handle-IsSoundAt b expired s prune x k v = prune-IsSoundAt expired b s v
handle-IsSoundAt b expired s (expire now) x k v = expire-IsSoundAt expired b s now v

run-IsSoundAt :
    (b : Start) (s : Manager) (events : List ((Handle → Bool) × Event))
    → EmptyExpired events
    → KeepCallback events
    → IsSoundAt b s
    → IsSoundAt b (run s events)
unfolding run KeepCallback
run-IsSoundAt b s [] x k v = v
run-IsSoundAt b s ((expired, e) ∷ events) x k v =
    run-IsSoundAt b (handle expired s e) events x.1 k.1 (handle-IsSoundAt b expired s e x.0 k.0 v)

callback-cases : (c : Call) → KeepsCallback (call c) ⊎ ((set : Bool) × (c ≡ remote_callback set))
unfolding KeepsCallback
callback-cases (bind_host host room) = inl tt
callback-cases (bind_guest guest room) = inl tt
callback-cases (bind_guest_with guest room hdl) = inl tt
callback-cases (bind_user user hdl device now) = inl tt
callback-cases (release_guest guest room) = inl tt
callback-cases (release_guest_from_all guest) = inl tt
callback-cases (release_room room) = inl tt
callback-cases (disconnect_room room) = inl tt
callback-cases (release_session hdl) = inl tt
callback-cases (release_user hdl) = inl tt
callback-cases (remove_active hdl) = inl tt
callback-cases (heartbeat hdl now) = inl tt
callback-cases (remote_callback set) = inr (set, refl)
callback-cases (timeout_callback set) = inl tt

perform-IsSound :
    (expired : Handle → Bool) (s : Manager) (c : Call)
    → expired 0 ≡ true
    → IsSound s
    → IsSound (perform expired s c)
unfolding perform
perform-IsSound expired s c x v = elim (callback-cases c) [
  | inl k ↦
      kept-IsSound (from_now s) (perform expired s c) refl
        (perform-IsSoundAt (from_now s) expired s c x k (from_now-IsSoundAt s v))
  | inr (set, e) ↦ rw e (set_callback-IsSound s set v)
]

pub handle-IsSound :
    (expired : Handle → Bool) (s : Manager) (e : Event)
    → expired 0 ≡ true
    → IsSound s
    → IsSound (handle expired s e)
unfolding handle
handle-IsSound expired s (call c) x v = perform-IsSound expired s c x v
handle-IsSound expired s prune x v =
    kept-IsSound (from_now s) (prune_disconnected_transmissions expired s).0 refl
      (prune-IsSoundAt expired (from_now s) s (from_now-IsSoundAt s v))
handle-IsSound expired s (expire now) x v =
    kept-IsSound (from_now s) (expire_inactive_sessions expired s now) refl
      (expire-IsSoundAt expired (from_now s) s now (from_now-IsSoundAt s v))

-- From a state where the rooms and the connections are sound, no scope is open and no notification
-- waits, every sequence of operations leads to such a state, with or without a callback for remote
-- control, which may be set at any time. In every call the empty handle has expired.
pub run-IsSound :
    (s : Manager) (events : List ((Handle → Bool) × Event))
    → EmptyExpired events
    → IsSound s
    → IsSound (run s events)
unfolding run
run-IsSound s [] x v = v
run-IsSound s ((expired, e) ∷ events) x v =
    run-IsSound (handle expired s e) events x.1 (handle-IsSound expired s e x.0 v)

pub new_manager-IsSound : IsSound new_manager
unfolding find contains
new_manager-IsSound = record {
  rooms = record {
    hosted = λ room gs h. cc;
    inhabited = λ room gs h. cc;
    distinct = λ room. tt;
    apart = λ room host h. refl;
    granted = λ room guest h. cc;
  };
  sockets = record {
    routed = λ u h e. cc;
    reachable = λ u h e. cc;
    owned = λ u h e. cc;
    named = λ u h e. cc;
    watched = λ h e. cc;
    verified = λ h e. cc;
    increasing = tt;
  };
  outside = refl;
  settled = refl;
}

-- Whatever the operations before the callback was set and whatever they left: after any operations
-- that follow and do not set it again, the notifications that were delivered since then, replayed
-- from who was a guest of which room when it was set, give exactly the guests of each room. In
-- every call the empty handle has expired.
pub replay-delivered-run :
    (before after : List ((Handle → Bool) × Event))
    → EmptyExpired before
    → EmptyExpired after
    → KeepCallback after
    → let s = run new_manager before in
      let t = run (set_remote_control_session_callback s true) after in
      (since : List Note) × ((t.delivered ≡ s.delivered ++ since)
        × ((room guest : String)
            → replay since (guests_of s) room guest ≡ contains (guests_in room t.guests) guest))
unfolding set_remote_control_session_callback
replay-delivered-run before after x y k =
    let s = set_remote_control_session_callback (run new_manager before) true in
    let v = run-IsSoundAt (from_now s) s after y k (
      from_now-IsSoundAt s (
        set_callback-IsSound (run new_manager before) true
          (run-IsSound new_manager before x new_manager-IsSound))) in
    let (since, (e, m)) = v.mirror v.callback in
    (
      since,
      (
        sym (append-nil (run s after).delivered)
            ∙ ap (λ p. (run s after).delivered ++ p) (sym (v.settled refl))
            ∙ e,
        m,
      ),
    )

abbrev pub started : Manager
started = set_remote_control_session_callback new_manager true

pub started-IsSound : IsSound started
started-IsSound = set_callback-IsSound new_manager true new_manager-IsSound
