-- ===== src/Transmission/Rooms/Operations.antt =====
-- Every operation on rooms keeps the invariant, and the notifications stay a faithful record.
use mathlib.Core.List.{append-nil, append_assoc}
use crossdesk_server.Common.{
  suc, ◌<◌, String, ◌≡◌, refl, ap, sym, subst, ◌∙◌, Bool, true, false, ◌||◌, not, Option, none,
  some, List, [], ◌∷◌, ◌++◌, map, ◌-◌, ◌==◌, if◌then◌else◌, or_else, contains, remove, string_key,
  nat_key, Assoc, find, set_ordered, erase, erase_absent, Bool-cases, Option-cases, inl, inr, arith,
}
use crossdesk_server.Identity.{is_temporary_controller_id}
use crossdesk_server.Transmission.State.{
  Handle, Note, remote_control, Manager, enter, leave, scoped, notify_remote_control,
}
use crossdesk_server.Transmission.Rooms.Invariant.{
  guests_in, HasRooms, AreRooms, AreRooms-same, find-set_guests_in, add_host-AreRooms,
  drop_room-AreRooms, add_guest-AreRooms,
}
use crossdesk_server.Transmission.Rooms.Removal.{left_in, remove_guest-AreRooms}
use crossdesk_server.Transmission.Rooms.Notes.{
  Start, Follows, Follows-more, log, log_deliver, Mirrors-started, Mirrors-ended, Mirrors-released,
  ended_notes,
}
use crossdesk_server.Transmission.Connections.Invariant.{HasSockets}
use crossdesk_server.Transmission.Rooms.{
  release_transmission, release_room, drop_room, drop_guests, notify_ended,
  bind_host_to_transmission, bind_guest_to_transmission, join_room, add_guest,
  release_guest_from_transmission, remove_guest, release_guest_everywhere, release_guest_from,
  disconnect_transmission, is_transmission_exist, get_host_id_of_transmission, revoke,
}

-- The rooms and the connections are sound, the notifications since the start are a faithful record
-- of the guests, and outside every scope none is waiting.
pub record IsSoundAt (b : Start) (s : Manager) : Type 0 where
  pub rooms : HasRooms s
  pub mirror : s.remote_callback ≡ true → Follows b (log s) s.guests
  pub sockets : HasSockets s
  pub callback : s.remote_callback ≡ b.callback
  pub depth : s.lock_depth ≡ b.depth
  pub settled : b.depth ≡ 0 → s.pending ≡ []

abbrev pub deeper : Start → Start
deeper b = record b { depth = suc b.depth }

leave-IsSoundAt : (b : Start) (s : Manager) → IsSoundAt (deeper b) s → IsSoundAt b (leave s)
leave-IsSoundAt b s v = record {
  rooms = v.rooms;
  mirror = λ c. rw (log_deliver s.delivered s.pending ((s.lock_depth - 1) == 0)) (v.mirror c);
  sockets = v.sockets;
  callback = v.callback;
  depth = omega (arith, v.depth);
  settled = λ e.
      let outside : ((s.lock_depth - 1) == 0) ≡ true = ground (arith, v.depth, e) in
      rw outside refl;
}

pub scoped-IsSoundAt {ℓ} :
    {A : Type ℓ} (b : Start) (body : Manager → Manager × A) (s : Manager)
    → ((t : Manager) → IsSoundAt (deeper b) t → IsSoundAt (deeper b) (body t).0)
    → IsSoundAt b s
    → IsSoundAt b (scoped body s).0
scoped-IsSoundAt b body s keep v = leave-IsSoundAt b (body (enter s)).0 (
    keep (enter s) (record {
      rooms = v.rooms;
      mirror = v.mirror;
      sockets = v.sockets;
      callback = v.callback;
      depth = omega (arith, v.depth);
      settled = λ e. absurd (omega (arith, e));
    }))

-- A change of the rooms with its notifications.
changed-IsSoundAt :
    (b : Start) (s : Manager) (hosts : Assoc String String) (guests : Assoc String (List String))
    (grants : Assoc String (Assoc String Handle)) (notes : List Note)
    → 0 < b.depth
    → AreRooms hosts guests grants
    → (s.remote_callback ≡ true → Follows b (log s ++ notes) guests)
    → IsSoundAt b s
    → IsSoundAt b (record s {
      hosts = hosts;
      guests = guests;
      grants = grants;
      pending = s.pending ++ (if s.remote_callback then notes else []);
    })
changed-IsSoundAt b s hosts guests grants notes o r m v = record {
  rooms = r;
  mirror = λ c. rw (c, ← append_assoc s.delivered s.pending notes) (m c);
  sockets = v.sockets;
  callback = v.callback;
  depth = v.depth;
  settled = λ e. absurd (omega (arith, o, e));
}

no_notes : (b : Bool) (p : List Note) → p ++ (if b then [] else []) ≡ p
no_notes true p = append-nil p
no_notes false p = append-nil p

more_notes :
    (b : Bool) (p : List Note) (n : Note) (ns : List Note)
    → (p ++ (if b then n ∷ [] else [])) ++ (if b then ns else []) ≡ p ++ (if b then n ∷ ns else [])
more_notes true p n ns = append_assoc p (n ∷ []) ns
more_notes false p n ns = append-nil (p ++ [])

notify_ended_lem :
    (s : Manager) (room host : String) (gs : List String)
    → notify_ended s room host gs ≡ record s {
      pending = s.pending ++ (if s.remote_callback then ended_notes room host gs else []);
    }
unfolding notify_ended
notify_ended_lem s room host [] =
    ap (λ p. record s { pending = p }) (sym (no_notes s.remote_callback s.pending))
notify_ended_lem s room host (g ∷ gs) =
    notify_ended_lem (notify_remote_control s room host g false) room host gs
    ∙ ap (λ p. record s { pending = p })
        (more_notes s.remote_callback s.pending (remote_control room host g false)
          (ended_notes room host gs))

release_room-IsSoundAt :
    (b : Start) (s : Manager) (room : String)
    → 0 < b.depth
    → IsSoundAt b s
    → IsSoundAt b (release_room s room)
unfolding release_room
release_room-IsSoundAt b s room o v = by_case (find room s.guests) refl
  where
    by_case :
        (o : Option (List String))
        → find room s.guests ≡ o
        → IsSoundAt b (drop_room room (drop_guests s room (or_else (find room s.hosts) "") o))
    by_case none e = record {
      rooms =
          subst (λ gs. AreRooms (erase room s.hosts) gs (erase room s.grants))
            (erase_absent room s.guests e)
            (drop_room-AreRooms s.hosts s.guests s.grants v.rooms room);
      mirror = v.mirror;
      callback = v.callback;
      depth = v.depth;
      settled = v.settled;
      sockets = v.sockets;
    }
    by_case (some gs) e =
        let host = or_else (find room s.hosts) "" in
        rw (notify_ended_lem s room host gs) (
          changed-IsSoundAt b s (erase room s.hosts) (erase room s.guests) (erase room s.grants)
            (ended_notes room host gs) o (drop_room-AreRooms s.hosts s.guests s.grants v.rooms room)
            (λ c.
              subst (λ xs. Follows b (log s ++ ended_notes room host xs) (erase room s.guests))
                (ap (λ o. or_else o []) e)
                (Follows-more b (log s) (ended_notes room host (guests_in room s.guests)) s.guests
                  (erase room s.guests)
                  (λ since m. Mirrors-released b.view since s.guests room host m) (v.mirror c)))
            v)

pub release_transmission-IsSoundAt :
    (b : Start) (s : Manager) (room : String)
    → IsSoundAt b s
    → IsSoundAt b (release_transmission s room).0
unfolding release_transmission
release_transmission-IsSoundAt b s room v =
    scoped-IsSoundAt b (λ t. (release_room t room, true)) s
      (λ t w. release_room-IsSoundAt (deeper b) t room (omega arith) w) v

pub bind_host-IsSoundAt :
    (b : Start) (s : Manager) (host room : String)
    → IsSoundAt b s
    → IsSoundAt b (bind_host_to_transmission s host room).0
unfolding bind_host_to_transmission
bind_host-IsSoundAt b s host room v =
    elim (Bool-cases (is_temporary_controller_id host || is_temporary_controller_id room)) [
      | inl t ↦ rw t v
      | inr f ↦ rw f (elim (Option-cases (find room s.hosts)) [
        | inl e ↦ rw e (record {
          rooms = add_host-AreRooms s.hosts s.guests s.grants v.rooms room host e;
          mirror = v.mirror;
          callback = v.callback;
          depth = v.depth;
          settled = v.settled;
          sockets = v.sockets;
        })
        | inr (h, e) ↦ rw e v
      ])
    ]

add_guest-IsSoundAt :
    (b : Start) (s : Manager) (guest room host : String)
    → 0 < b.depth
    → find room s.hosts ≡ some host
    → (host == guest) ≡ false
    → IsSoundAt b s
    → IsSoundAt b (add_guest s guest room host (guests_in room s.guests)).0
unfolding add_guest
add_guest-IsSoundAt b s guest room host o e d v =
    let joined = set_ordered room (guests_in room s.guests ++ guest ∷ []) s.guests in
    elim (Bool-cases (contains (guests_in room s.guests) guest)) [
      | inl c ↦ rw c (record {
        rooms =
            AreRooms-same s.hosts s.guests (set_ordered room (guests_in room s.guests) s.guests)
              s.grants (λ k. find-set_guests_in room guest s.guests k c) v.rooms;
        mirror = λ h.
            let (since, (past, m)) = v.mirror h in
            (since, (past, λ r g. rw (find-set_guests_in room guest s.guests r c) (m r g)));
        sockets = v.sockets;
        callback = v.callback;
        depth = v.depth;
        settled = v.settled;
      })
      | inr c ↦ rw c (
          changed-IsSoundAt b s s.hosts joined s.grants (remote_control room host guest true ∷ []) o
            (add_guest-AreRooms s.hosts s.guests s.grants v.rooms room host guest e d c)
            (λ h.
              Follows-more b (log s) (remote_control room host guest true ∷ []) s.guests joined
                (λ since m. Mirrors-started b.view since s.guests room host guest m) (v.mirror h))
            v)
    ]

join_room-IsSoundAt :
    (b : Start) (s : Manager) (guest room : String) (o : Option String)
    → 0 < b.depth
    → find room s.hosts ≡ o
    → IsSoundAt b s
    → IsSoundAt b (join_room s guest room o).0
unfolding join_room
join_room-IsSoundAt b s guest room none x e v = v
join_room-IsSoundAt b s guest room (some host) x e v = elim (Bool-cases (host == guest)) [
  | inl d ↦ rw d v
  | inr d ↦ rw d (add_guest-IsSoundAt b s guest room host x e d v)
]

pub bind_guest-IsSoundAt :
    (b : Start) (s : Manager) (guest room : String)
    → IsSoundAt b s
    → IsSoundAt b (bind_guest_to_transmission s guest room).0
unfolding bind_guest_to_transmission
bind_guest-IsSoundAt b s guest room v =
    scoped-IsSoundAt b
      (λ t.
        if guest == "" || room == ""
        then (t, false)
        else join_room t guest room (find room t.hosts))
      s body v
  where
    body :
        (t : Manager)
        → IsSoundAt (deeper b) t
        → IsSoundAt
            (deeper b)
            (if guest == "" || room == ""
              then (t, false)
              else join_room t guest room (find room t.hosts)).0
    body t w = elim (Bool-cases (guest == "" || room == "")) [
      | inl e ↦ rw e w
      | inr e ↦
          rw e
            (join_room-IsSoundAt (deeper b) t guest room (find room t.hosts) (omega arith) refl w)
    ]

remove_guest-IsSoundAt :
    (b : Start) (s : Manager) (guest room : String) (o : Option (List String))
    → 0 < b.depth
    → find room s.guests ≡ o
    → IsSoundAt b s
    → IsSoundAt b (remove_guest s guest room o).0
unfolding remove_guest
remove_guest-IsSoundAt b s guest room none x e v = v
remove_guest-IsSoundAt b s guest room (some gs) x e v = elim (Bool-cases (contains gs guest)) [
  | inl c ↦
      let host = get_host_id_of_transmission s room in
      let note = remote_control room host guest false ∷ [] in
      rw c (
        changed-IsSoundAt b s s.hosts (left_in room (remove guest gs) s.guests)
          (revoke guest room s.grants) note x
          (subst
            (λ xs.
              AreRooms s.hosts (left_in room (remove guest xs) s.guests)
                (revoke guest room s.grants))
            here (remove_guest-AreRooms s.hosts s.guests s.grants v.rooms room guest (rw here c)))
          (λ h.
            subst (λ xs. Follows b (log s ++ note) (left_in room (remove guest xs) s.guests)) here
              (Follows-more b (log s) note s.guests
                (left_in room (remove guest (guests_in room s.guests)) s.guests)
                (λ since m. Mirrors-ended b.view since s.guests room host guest m) (v.mirror h)))
          v)
  | inr c ↦ rw c v
]
  where
    here : guests_in room s.guests ≡ gs
    here = ap (λ o. or_else o []) e

pub release_guest-IsSoundAt :
    (b : Start) (s : Manager) (guest room : String)
    → IsSoundAt b s
    → IsSoundAt b (release_guest_from_transmission s guest room).0
unfolding release_guest_from_transmission
release_guest-IsSoundAt b s guest room v =
    scoped-IsSoundAt b (λ t. remove_guest t guest room (find room t.guests)) s
      (λ t w.
        remove_guest-IsSoundAt (deeper b) t guest room (find room t.guests) (omega arith) refl w)
      v

release_guest_from-IsSoundAt :
    (b : Start) (s : Manager) (guest : String) (rooms : List String)
    → IsSoundAt b s
    → IsSoundAt b (release_guest_from s guest rooms).0
unfolding release_guest_from
release_guest_from-IsSoundAt b s guest [] v = v
release_guest_from-IsSoundAt b s guest (room ∷ rest) v =
    release_guest_from-IsSoundAt b (release_guest_from_transmission s guest room).0 guest rest
      (release_guest-IsSoundAt b s guest room v)

pub release_guest_everywhere-IsSoundAt :
    (b : Start) (s : Manager) (guest : String)
    → IsSoundAt b s
    → IsSoundAt b (release_guest_everywhere s guest).0
unfolding release_guest_everywhere
release_guest_everywhere-IsSoundAt b s guest v =
    scoped-IsSoundAt b (λ t. release_guest_from t guest (map (λ room. room.0) t.guests)) s
      (λ t. release_guest_from-IsSoundAt (deeper b) t guest (map (λ room. room.0) t.guests)) v

pub disconnect-IsSoundAt :
    (b : Start) (s : Manager) (room : String)
    → IsSoundAt b s
    → IsSoundAt b (disconnect_transmission s room).0
unfolding disconnect_transmission
disconnect-IsSoundAt b s room v =
    scoped-IsSoundAt b
      (λ t. if not (is_transmission_exist t room) then (t, true) else release_transmission t room) s
      body v
  where
    body :
        (t : Manager)
        → IsSoundAt (deeper b) t
        → IsSoundAt
            (deeper b)
            (if not (is_transmission_exist t room)
              then (t, true)
              else release_transmission t room).0
    body t w = elim (Bool-cases (is_transmission_exist t room)) [
      | inl e ↦ rw e (release_transmission-IsSoundAt (deeper b) t room w)
      | inr e ↦ rw e w
    ]
