-- ===== src/Transmission/Connections/Release.antt =====
-- A released connection: the invariant holds of what is left, and nothing of the connection stays.
use crossdesk_server.Common.{
  String, ◌≡◌, ◌≢◌, refl, sym, true, false, Option, none, some, ◌==◌, if◌then◌else◌, is_some,
  string_key, nat_key, Assoc, find, erase, find-set_ordered, find-erase, Bool-cases, ==_refl, inl,
  inr, arith, erase-AreIncreasing,
}
use crossdesk_server.Transmission.State.{Handle, Manager, same_connection}
use crossdesk_server.Transmission.Connections.{
  first_connection, reassign, released_from, released_route, release_known,
  release_user_from_ws_handle,
}
use crossdesk_server.Transmission.Rooms.Notes.{Start}
use crossdesk_server.Transmission.Rooms.Operations.{IsSoundAt}
use crossdesk_server.Transmission.Connections.Invariant.{
  AreSockets, HasSockets, same_connection_iff, first_connection-some, first_connection-none,
}

module _ (s : Manager) (u : String) (hdl : Handle) (v : HasSockets s)
    (known : find hdl s.users ≡ some u) where
  abbrev left : Assoc Handle String
  left = erase hdl s.users

  -- The route of another user leads to another connection.
  route_left :
      (k : String) (h : Handle)
      → find k s.routes ≡ some h
      → (h == hdl) ≡ false
      → find h left ≡ some k
  route_left k h e o = ground (arith, find-erase hdl h s.users, v.routed k h e)

  other_connection :
      (k : String) (h : Handle) → find k s.routes ≡ some h → (u == k) ≡ false → (h == hdl) ≡ false
  other_connection k h e o = ground (arith, v.routed k h e, string_key.beq_iff u k)

  route_other :
      (k : String) (h : Handle) → find k s.routes ≡ some h → (u == k) ≡ false → find h left ≡ some k
  route_other k h e o = route_left k h e (other_connection k h e o)

  user_left : (k : String) (h : Handle) → find h left ≡ some k → find h s.users ≡ some k
  user_left k h e = ground (arith, find-erase hdl h s.users)

  not_same : (c : Handle) → same_connection c hdl ≡ false → (c == hdl) ≡ false
  not_same c o = ground (arith, c_same c)
    where
      c_same : (d : Handle) → d ≡ hdl → same_connection d hdl ≡ true
      c_same d q = rw q ((same_connection_iff hdl hdl).1 (v.owned u hdl known))

  -- A route that stays leads elsewhere, since the user's own route does.
  kept_elsewhere :
      (c : Handle) (k : String) (h : Handle)
      → find u s.routes ≡ some c
      → (c == hdl) ≡ false
      → find k s.routes ≡ some h
      → (h == hdl) ≡ false
  kept_elsewhere c k h f o e = elim (Bool-cases (u == k)) [
    | inl q ↦ ground (arith, own_route ((string_key.beq_iff u k).0 q))
    | inr d ↦ other_connection k h e d
  ]
    where
      own_route : u ≡ k → find k s.routes ≡ some c
      own_route q = rw (← q) f

  reassigned :
      (o : Option Handle)
      → first_connection u left ≡ o
      → (k : String) (h : Handle) → find k (reassign u o s.routes) ≡ some h
      → find h left ≡ some k
  unfolding reassign
  reassigned none f k h e = elim (Bool-cases (u == k)) [
    | inl q ↦ absurd (gone (rw (find-erase u k s.routes, q) at e))
    | inr o ↦ route_other k h (rw (find-erase u k s.routes, o) at e) o
  ]
    where
      gone : Path (Option Handle) none (some h) → ⊥
      gone p = cc
  reassigned (some h2) f k h e = elim (Bool-cases (u == k)) [
    | inl q ↦
        rw (← (string_key.beq_iff u k).0 q)
          (same_handle (rw (find-set_ordered u k h2 s.routes, q) at e))
    | inr o ↦ route_other k h (rw (find-set_ordered u k h2 s.routes, o) at e) o
  ]
    where
      same_handle : Path (Option Handle) (some h2) (some h) → find h left ≡ some u
      same_handle p =
          ground (
            arith,
            first_connection-some u left h2 (erase-AreIncreasing hdl s.users v.increasing) f,
          )

  released_routed :
      (o : Option Handle)
      → find u s.routes ≡ o
      → (k : String) (h : Handle) → find k (released_from u hdl left s.routes o) ≡ some h
      → find h left ≡ some k
  unfolding released_from
  released_routed none f k h e = absurd (ground (arith, v.reachable u hdl known))
  released_routed (some c) f k h e = elim (Bool-cases (same_connection c hdl)) [
    | inl q ↦ reassigned (first_connection u left) refl k h (rw q at e)
    | inr o ↦ route_left k h (rw o at e) (kept_elsewhere c k h f (not_same c o) (rw o at e))
  ]

  reassigned_reachable :
      (o : Option Handle)
      → first_connection u left ≡ o
      → (k : String) (h : Handle) → find h left ≡ some k
      → is_some (find k (reassign u o s.routes)) ≡ true
  unfolding reassign
  reassigned_reachable none f k h e = elim (Bool-cases (u == k)) [
    | inl q ↦
        absurd (first_connection-none u left h f (rw (sym ((string_key.beq_iff u k).0 q)) at e))
    | inr o ↦ rw (find-erase u k s.routes, o) (v.reachable k h (user_left k h e))
  ]
  reassigned_reachable (some h2) f k h e =
      ground (arith, find-set_ordered u k h2 s.routes, v.reachable k h (user_left k h e))

  released_reachable :
      (o : Option Handle)
      → find u s.routes ≡ o
      → (k : String) (h : Handle) → find h left ≡ some k
      → is_some (find k (released_from u hdl left s.routes o)) ≡ true
  unfolding released_from
  released_reachable none f k h e = v.reachable k h (user_left k h e)
  released_reachable (some c) f k h e = elim (Bool-cases (same_connection c hdl)) [
    | inl q ↦ rw q (reassigned_reachable (first_connection u left) refl k h e)
    | inr o ↦ rw o (v.reachable k h (user_left k h e))
  ]

  known-HasSockets :
      AreSockets
        (released_route u hdl left s.routes)
        left
        (erase hdl s.devices)
        (erase hdl s.last_active)
  unfolding released_route
  known-HasSockets = record {
    routed = released_routed (find u s.routes) refl;
    reachable = λ k h e. released_reachable (find u s.routes) refl k h e;
    owned = λ k h e. v.owned k h (user_left k h e);
    named = λ k h e. v.named k h (user_left k h e);
    watched = λ h e.
        ground (arith, find-erase hdl h s.users, find-erase hdl h s.last_active, v.watched h);
    verified =
        λ h e. ground (arith, find-erase hdl h s.users, find-erase hdl h s.devices, v.verified h);
    increasing = erase-AreIncreasing hdl s.users v.increasing;
  }

-- An unknown connection is neither watched nor verified.
unknown-HasSockets :
    (s : Manager) (hdl : Handle)
    → HasSockets s
    → AreSockets s.routes s.users (erase hdl s.devices) (erase hdl s.last_active)
unknown-HasSockets s hdl v = record {
  routed = v.routed;
  reachable = v.reachable;
  owned = v.owned;
  named = v.named;
  watched = λ h e. ground (arith, find-erase hdl h s.last_active, v.watched h);
  verified = λ h e. ground (arith, find-erase hdl h s.devices, v.verified h);
  increasing = v.increasing;
}

pub release_user-HasSockets :
    (s : Manager) (hdl : Handle) → HasSockets s → HasSockets (release_user_from_ws_handle s hdl).0
unfolding release_user_from_ws_handle
release_user-HasSockets s hdl v = by_case (find hdl s.users) refl
  where
    by_case :
        (o : Option String)
        → find hdl s.users ≡ o
        → HasSockets
            (release_known
              (record s { last_active = erase hdl s.last_active; devices = erase hdl s.devices })
              hdl
              o).0
    by_case none e = unknown-HasSockets s hdl v
    by_case (some u) e = known-HasSockets s u hdl v e

-- What a release leaves of the maps by connection.
pub released_maps :
    (s : Manager) (hdl : Handle)
    → let t = (release_user_from_ws_handle s hdl).0 in
      ((h : Handle) → find h t.users ≡ (if hdl == h then none else find h s.users))
      × (t.devices ≡ erase hdl s.devices)
      × (t.last_active ≡ erase hdl s.last_active)
unfolding release_user_from_ws_handle release_known
released_maps s hdl = by_case (find hdl s.users) refl
  where
    by_case :
        (o : Option String)
        → find hdl s.users ≡ o
        → let t =
            (release_known
              (record s { last_active = erase hdl s.last_active; devices = erase hdl s.devices })
              hdl
              o).0 in
          ((h : Handle) → find h t.users ≡ (if hdl == h then none else find h s.users))
          × (t.devices ≡ erase hdl s.devices)
          × (t.last_active ≡ erase hdl s.last_active)
    by_case none e = (λ h. ground (arith, same_handle h), refl, refl)
      where
        same_handle : (h : Handle) → hdl ≡ h → find h s.users ≡ none
        same_handle h q = rw (← q) e
    by_case (some u) e = (λ h. find-erase hdl h s.users, refl, refl)

-- After a connection is released the server knows no user and no device of it, does not watch it,
-- and has no route to it; the users of other connections are as before.
pub released_lem :
    (s : Manager) (hdl : Handle)
    → HasSockets s
    → let t = (release_user_from_ws_handle s hdl).0 in
      (find hdl t.users ≡ none)
      × (find hdl t.devices ≡ none)
      × (find hdl t.last_active ≡ none)
      × ((u : String) → find u t.routes ≢ some hdl)
      × ((h : Handle) → find h t.users ≡ (if hdl == h then none else find h s.users))
released_lem s hdl v =
    let (users, devices, active) = released_maps s hdl in
    (
      rw (users hdl, ==_refl hdl),
      rw (devices, find-erase hdl hdl s.devices, ==_refl hdl),
      rw (active, find-erase hdl hdl s.last_active, ==_refl hdl),
      λ u e. unrouted u ((release_user-HasSockets s hdl v).routed u hdl e),
      users,
    )
  where
    unrouted : (u : String) → find hdl (release_user_from_ws_handle s hdl).0.users ≡ some u → ⊥
    unrouted u e = ground (arith, (released_maps s hdl).0 hdl, ==_refl hdl)

pub release_user-IsSoundAt :
    (b : Start) (s : Manager) (hdl : Handle)
    → IsSoundAt b s
    → IsSoundAt b (release_user_from_ws_handle s hdl).0
unfolding release_user_from_ws_handle release_known
release_user-IsSoundAt b s hdl v =
    by_case (find hdl s.users) (release_user-HasSockets s hdl v.sockets)
  where
    by_case :
        (o : Option String)
        → HasSockets
            (release_known
              (record s { last_active = erase hdl s.last_active; devices = erase hdl s.devices })
              hdl
              o).0
        → IsSoundAt b
            (release_known
              (record s { last_active = erase hdl s.last_active; devices = erase hdl s.devices })
              hdl
              o).0
    by_case none k = record {
      rooms = v.rooms;
      mirror = v.mirror;
      sockets = k;
      callback = v.callback;
      depth = v.depth;
      settled = v.settled;
    }
    by_case (some u) k = record {
      rooms = v.rooms;
      mirror = v.mirror;
      sockets = k;
      callback = v.callback;
      depth = v.depth;
      settled = v.settled;
    }
