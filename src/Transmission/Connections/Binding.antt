-- ===== src/Transmission/Connections/Binding.antt =====
-- A connection gets its user, and a guest's connection gets access to a room.
use crossdesk_server.Common.{
  refl, set_ordered, ℕ, zero, suc, ◌<◌, String, ◌≡◌, Bool, true, false, ◌||◌, not, ◌==◌,
  if◌then◌else◌, is_some, or_else, contains, string_key, nat_key, find, find-set_ordered,
  Bool-cases, inl, inr, arith,
}
use crossdesk_server.Transmission.State.{Handle, Manager}
use crossdesk_server.Transmission.Rooms.{
  is_transmission_exist, is_host_of_transmission, get_all_user_id_of_transmission,
}
use crossdesk_server.Transmission.Rooms.Invariant.{grant-AreRooms}
use crossdesk_server.Transmission.Rooms.Joining.{Joined, bind_guest-Joined, member_guest}
use crossdesk_server.Transmission.Rooms.Notes.{Start}
use crossdesk_server.Transmission.Rooms.Operations.{
  deeper, IsSoundAt, scoped-IsSoundAt, bind_guest-IsSoundAt,
}
use crossdesk_server.Transmission.Connections.Invariant.{bound_user-HasSockets}
use crossdesk_server.Transmission.Connections.{
  bind_user_to_ws_handle, bound_user, update_last_active_time, bind_guest_connection, join_with,
  joined, grant_access, get_user_id,
}

pub update_active-IsSoundAt :
    (b : Start) (s : Manager) (hdl : Handle) (now : ℕ)
    → IsSoundAt b s
    → IsSoundAt b (update_last_active_time s hdl now).0
unfolding update_last_active_time
update_active-IsSoundAt b s hdl now v = elim (Bool-cases (is_some (find hdl s.users))) [
  | inl e ↦ rw e (record {
    rooms = v.rooms;
    mirror = v.mirror;
    callback = v.callback;
    depth = v.depth;
    settled = v.settled;
    sockets = record {
      routed = v.sockets.routed;
      reachable = v.sockets.reachable;
      owned = v.sockets.owned;
      named = v.sockets.named;
      watched = λ h p. elim (Bool-cases (hdl == h)) [
        | inl q ↦ rw (← (nat_key.beq_iff hdl h).0 q) e
        | inr o ↦ v.sockets.watched h (rw (find-set_ordered hdl h now s.last_active, o) at p)
      ];
      verified = v.sockets.verified;
      increasing = v.sockets.increasing;
    };
  })
  | inr e ↦ rw e v
]

bound_user-IsSoundAt :
    (b : Start) (s : Manager) (user : String) (hdl : Handle) (device : String)
    → (or_else (find hdl s.users) user == user) ≡ true
    → (user == "") ≡ false
    → 0 < hdl
    → IsSoundAt b s
    → IsSoundAt b (bound_user s user hdl device)
unfolding bound_user
bound_user-IsSoundAt b s user hdl device free named own v = record {
  rooms = v.rooms;
  mirror = v.mirror;
  callback = v.callback;
  depth = v.depth;
  settled = v.settled;
  sockets = bound_user-HasSockets s user hdl device v.sockets free named own;
}

joined-IsSoundAt :
    (b : Start) (s : Manager) (guest room : String)
    → IsSoundAt b s
    → IsSoundAt b (joined s guest room).0
unfolding joined
joined-IsSoundAt b s guest room v =
    elim (Bool-cases (contains (get_all_user_id_of_transmission s room) guest)) [
      | inl e ↦ rw e v
      | inr e ↦ rw e (bind_guest-IsSoundAt b s guest room v)
    ]

joined-Joined :
    (s : Manager) (guest room : String)
    → is_host_of_transmission s guest room ≡ false
    → Joined guest room (joined s guest room)
unfolding joined
joined-Joined s guest room h =
    elim (Bool-cases (contains (get_all_user_id_of_transmission s room) guest)) [
      | inl e ↦ rw e (λ p. member_guest s guest room h e)
      | inr e ↦ rw e (bind_guest-Joined s guest room)
    ]

join_with-IsSoundAt :
    (b : Start) (s : Manager) (guest room : String) (hdl : Handle)
    → is_host_of_transmission s guest room ≡ false
    → IsSoundAt b s
    → IsSoundAt b (join_with s guest room hdl).0
unfolding join_with grant_access
join_with-IsSoundAt b s guest room hdl h v = elim (Bool-cases (joined s guest room).1) [
  | inl e ↦
      let w = joined-IsSoundAt b s guest room v in
      rw e (record {
        rooms =
            grant-AreRooms (joined s guest room).0.hosts (joined s guest room).0.guests
              (joined s guest room).0.grants w.rooms room guest hdl
              (joined-Joined s guest room h e);
        mirror = w.mirror;
        callback = w.callback;
        depth = w.depth;
        settled = w.settled;
        sockets = w.sockets;
      })
  | inr e ↦ rw e (joined-IsSoundAt b s guest room v)
]

module _ (expired : Handle → Bool) where
  -- The empty handle has expired.
  pub bind_user-IsSoundAt :
      (b : Start) (s : Manager) (user : String) (hdl : Handle) (device : String) (now : ℕ)
      → expired 0 ≡ true
      → IsSoundAt b s
      → IsSoundAt b (bind_user_to_ws_handle expired s user hdl device now).0
  unfolding bind_user_to_ws_handle
  bind_user-IsSoundAt b s user hdl device now x v = elim (Bool-cases (user == "" || expired hdl)) [
    | inl e ↦ rw e v
    | inr e ↦ rw e (elim (Bool-cases (or_else (find hdl s.users) user == user)) [
      | inl free ↦ rw free (
          update_active-IsSoundAt b (bound_user s user hdl device) hdl now
            (bound_user-IsSoundAt b s user hdl device free (ground arith) (positive hdl e) v))
      | inr taken ↦ rw taken v
    ])
  ]
    where
      positive : (h : Handle) → (user == "" || expired h) ≡ false → 0 < h
      positive zero e = absurd (ground arith)
      positive (suc h) e = omega arith

  pub bind_guest_connection-IsSoundAt :
      (b : Start) (s : Manager) (guest room : String) (hdl : Handle)
      → IsSoundAt b s
      → IsSoundAt b (bind_guest_connection expired s guest room hdl).0
  unfolding bind_guest_connection
  bind_guest_connection-IsSoundAt b s guest room hdl v =
      scoped-IsSoundAt b
        (λ t.
          if guest == ""
            || expired hdl
            || not (get_user_id t hdl == guest)
            || not (is_transmission_exist t room)
            || is_host_of_transmission t guest room
          then (t, false)
          else join_with t guest room hdl)
        s body v
    where
      body :
          (t : Manager)
          → IsSoundAt (deeper b) t
          → IsSoundAt
              (deeper b)
              (if guest == ""
                  || expired hdl
                  || not (get_user_id t hdl == guest)
                  || not (is_transmission_exist t room)
                  || is_host_of_transmission t guest room
                then (t, false)
                else join_with t guest room hdl).0
      body t w =
          elim (Bool-cases (
            guest == ""
            || expired hdl
            || not (get_user_id t hdl == guest)
            || not (is_transmission_exist t room)
            || is_host_of_transmission t guest room)) [
              | inl e ↦ rw e w
              | inr e ↦ rw e (join_with-IsSoundAt (deeper b) t guest room hdl (ground arith) w)
            ]

update_active-users :
    (s : Manager) (hdl : Handle) (now : ℕ) → (update_last_active_time s hdl now).0.users ≡ s.users
unfolding update_last_active_time
update_active-users s hdl now = elim (Bool-cases (is_some (find hdl s.users))) [
  | inl e ↦ rw e refl
  | inr e ↦ rw e refl
]

-- A connection that may be bound gets its user, and no other connection changes.
pub bind_user-users :
    (expired : Handle → Bool) (s : Manager) (user : String) (hdl : Handle) (device : String)
    (now : ℕ)
    → (user == "" || expired hdl) ≡ false
    → (or_else (find hdl s.users) user == user) ≡ true
    → ((bind_user_to_ws_handle expired s user hdl device now).1 ≡ true)
      × ((bind_user_to_ws_handle expired s user hdl device now).0.users
          ≡ set_ordered hdl user s.users)
unfolding bind_user_to_ws_handle bound_user
bind_user-users expired s user hdl device now e free =
    rw (e, free) (refl, update_active-users (bound_user s user hdl device) hdl now)
