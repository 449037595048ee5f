-- ===== src/Transmission/Rooms/Invariant.antt =====
-- The invariant of rooms, guests and granted connections, and the changes that keep it.
use crossdesk_server.Common.{
  String, ◌≡◌, ◌⊎◌, refl, true, false, Option, none, some, List, [], ◌∷◌, ◌++◌, ◌==◌, if◌then◌else◌,
  is_some, or_else, is_empty, is_empty-append, contains, contains-append, AllDistinct,
  append-AllDistinct, string_key, Assoc, find, set_ordered, erase, find-set_ordered, find-erase,
  Bool-cases, Option-cases, ==_refl, inl, inr, arith,
}
use crossdesk_server.Transmission.State.{Handle, Manager}

abbrev pub guests_in : String → Assoc String (List String) → List String
guests_in transmission_id guests = or_else (find transmission_id guests) []

abbrev pub handles_in : String → Assoc String (Assoc String Handle) → Assoc String Handle
handles_in transmission_id grants = or_else (find transmission_id grants) []

-- A key is the one that an operation changes, or another.
pub key_cases : (room k : String) → (room ≡ k) ⊎ ((room == k) ≡ false)
key_cases room k = elim (Bool-cases (room == k)) [
  | inl e ↦ inl ((string_key.beq_iff room k).0 e)
  | inr e ↦ inr e
]

pub guests_in-set :
    (room k : String) (gs : List String) (guests : Assoc String (List String))
    → guests_in k (set_ordered room gs guests) ≡ (if room == k then gs else guests_in k guests)
guests_in-set room k gs guests = ground (arith, find-set_ordered room k gs guests)

pub guests_in-erase :
    (room k : String) (guests : Assoc String (List String))
    → guests_in k (erase room guests) ≡ (if room == k then [] else guests_in k guests)
guests_in-erase room k guests = ground (arith, find-erase room k guests)

pub handles_in-set :
    (room k : String) (hs : Assoc String Handle) (grants : Assoc String (Assoc String Handle))
    → handles_in k (set_ordered room hs grants) ≡ (if room == k then hs else handles_in k grants)
handles_in-set room k hs grants = ground (arith, find-set_ordered room k hs grants)

pub handles_in-erase :
    (room k : String) (grants : Assoc String (Assoc String Handle))
    → handles_in k (erase room grants) ≡ (if room == k then [] else handles_in k grants)
handles_in-erase room k grants = ground (arith, find-erase room k grants)

-- Storing the guest list of a room that has guests changes no lookup.
pub find-set_guests_in :
    (room guest : String) (guests : Assoc String (List String)) (k : String)
    → contains (guests_in room guests) guest ≡ true
    → find k (set_ordered room (guests_in room guests) guests) ≡ find k guests
find-set_guests_in room guest guests k c =
    rw (find-set_ordered room k (guests_in room guests) guests) (elim (key_cases room k) [
      | inl q ↦ rw (← q, ==_refl room) (by_case (find room guests) c)
      | inr o ↦ rw o
    ])
  where
    by_case :
        (o : Option (List String)) → contains (or_else o []) guest ≡ true → some (or_else o []) ≡ o
    by_case none h = absurd (unfold contains in ground arith)
    by_case (some gs) h = refl

-- Rooms with guests have a host, who is not a guest, and no guest twice; only guests have access.
pub record AreRooms (hosts : Assoc String String) (guests : Assoc String (List String))
    (grants : Assoc String (Assoc String Handle)) : Type 0 where
  pub hosted :
      (room : String) (gs : List String)
      → find room guests ≡ some gs
      → is_some (find room hosts) ≡ true
  pub inhabited :
      (room : String) (gs : List String) → find room guests ≡ some gs → is_empty gs ≡ false
  pub distinct : (room : String) → AllDistinct (guests_in room guests)
  pub apart :
      (room host : String)
      → find room hosts ≡ some host
      → contains (guests_in room guests) host ≡ false
  pub granted :
      (room guest : String)
      → is_some (find guest (handles_in room grants)) ≡ true
      → contains (guests_in room guests) guest ≡ true

abbrev pub HasRooms : Manager → Type 0
HasRooms s = AreRooms s.hosts s.guests s.grants

-- The invariant reads the guest lists by lookup only.
pub AreRooms-same :
    (hosts : Assoc String String) (guests guests' : Assoc String (List String))
    (grants : Assoc String (Assoc String Handle))
    → ((k : String) → find k guests' ≡ find k guests)
    → AreRooms hosts guests grants
    → AreRooms hosts guests' grants
AreRooms-same hosts guests guests' grants p v = record {
  hosted = λ k gs h. v.hosted k gs (rw (p k) at h);
  inhabited = λ k gs h. v.inhabited k gs (rw (p k) at h);
  distinct = λ k. rw (p k) (v.distinct k);
  apart = λ k h q. rw (p k) (v.apart k h q);
  granted = λ k g q. rw (p k) (v.granted k g q);
}

module _ (hosts : Assoc String String) (guests : Assoc String (List String))
    (grants : Assoc String (Assoc String Handle)) (v : AreRooms hosts guests grants)
    (room : String) where
  pub no_guests : find room hosts ≡ none → find room guests ≡ none
  no_guests e = elim (Option-cases (find room guests)) [
    | inl h ↦ h
    | inr (gs, h) ↦ absurd (ground (arith, v.hosted room gs h))
  ]

  pub add_host-AreRooms :
      (host : String)
      → find room hosts ≡ none
      → AreRooms (set_ordered room host hosts) guests grants
  add_host-AreRooms host e = record {
    hosted = λ k gs h. ground (arith, find-set_ordered room k host hosts, v.hosted k gs h);
    inhabited = v.inhabited;
    distinct = v.distinct;
    apart = λ k h p. elim (key_cases room k) [
      | inl q ↦ rw (← q, no_guests e) (unfold contains in refl)
      | inr d ↦ v.apart k h (ground (arith, find-set_ordered room k host hosts))
    ];
    granted = v.granted;
  }

  granted_left :
      (k g : String)
      → is_some (find g (handles_in k (erase room grants))) ≡ true
      → contains (guests_in k (erase room guests)) g ≡ true
  granted_left k g h = elim (Bool-cases (room == k)) [
    | inl e ↦ absurd (no_handle (rw (handles_in-erase room k grants, e) at h))
    | inr e ↦
        rw (guests_in-erase room k guests, e)
          (v.granted k g (rw (handles_in-erase room k grants, e) at h))
  ]
    where
      no_handle : is_some (find {V = Handle} g []) ≡ true → ⊥
      no_handle p = unfold find in cc

  pub drop_room-AreRooms : AreRooms (erase room hosts) (erase room guests) (erase room grants)
  drop_room-AreRooms = record {
    hosted =
        λ k gs h. ground (arith, find-erase room k guests, find-erase room k hosts, v.hosted k gs);
    inhabited = λ k gs h. ground (arith, find-erase room k guests, v.inhabited k gs);
    distinct = λ k.
        rw (guests_in-erase room k guests)
          (elim (Bool-cases (room == k)) [ inl e ↦ rw e tt | inr e ↦ rw e (v.distinct k) ]);
    apart = λ k h p.
        ground (arith, guests_in-erase room k guests, find-erase room k hosts, v.apart k h);
    granted = λ k g h. granted_left k g h;
  }

  apart_added :
      (host guest h : String)
      → find room hosts ≡ some host
      → (host == guest) ≡ false
      → find room hosts ≡ some h
      → contains (guests_in room guests ++ guest ∷ []) h ≡ false
  apart_added host guest h e d p = ground (
    arith,
    contains-append (guests_in room guests) guest h,
    v.apart room h,
    string_key.beq_iff guest h,
    string_key.beq_iff host guest,
  )

  granted_added :
      (guest g : String)
      → is_some (find g (handles_in room grants)) ≡ true
      → contains (guests_in room guests ++ guest ∷ []) g ≡ true
  granted_added guest g p =
      ground (arith, contains-append (guests_in room guests) guest g, v.granted room g p)

  granted_self :
      (guest : String) (hdl : Handle) (g : String)
      → contains (guests_in room guests) guest ≡ true
      → is_some (find g (set_ordered guest hdl (handles_in room grants))) ≡ true
      → contains (guests_in room guests) g ≡ true
  granted_self guest hdl g h p = elim (key_cases guest g) [
    | inl q ↦ rw (← q) h
    | inr o ↦ v.granted room g (rw (find-set_ordered guest g hdl (handles_in room grants), o) at p)
  ]

  pub add_guest-AreRooms :
      (host guest : String)
      → find room hosts ≡ some host
      → (host == guest) ≡ false
      → contains (guests_in room guests) guest ≡ false
      → AreRooms hosts (set_ordered room (guests_in room guests ++ guest ∷ []) guests) grants
  add_guest-AreRooms host guest e d n = record {
    hosted = λ k gs h. elim (key_cases room k) [
      | inl q ↦ rw (← q, e)
      | inr o ↦ v.hosted k gs (rw (find-set_ordered room k _ guests, o) at h)
    ];
    inhabited = λ k gs h. elim (Bool-cases (room == k)) [
      | inl q ↦ nonempty gs (rw (find-set_ordered room k _ guests, q) at h)
      | inr o ↦ v.inhabited k gs (rw (find-set_ordered room k _ guests, o) at h)
    ];
    distinct = λ k. rw (guests_in-set room k _ guests) (elim (Bool-cases (room == k)) [
      | inl q ↦ rw q (append-AllDistinct (guests_in room guests) guest (v.distinct room) n)
      | inr o ↦ rw o (v.distinct k)
    ]);
    apart = λ k h p. rw (guests_in-set room k _ guests) (elim (key_cases room k) [
      | inl q ↦ rw (← q, ==_refl room) (apart_added host guest h e d (rw (← q) at p))
      | inr o ↦ rw o (v.apart k h p)
    ]);
    granted = λ k g p. rw (guests_in-set room k _ guests) (elim (key_cases room k) [
      | inl q ↦ rw (← q, ==_refl room) (granted_added guest g (rw (← q) at p))
      | inr o ↦ rw o (v.granted k g p)
    ]);
  }
    where
      nonempty :
          (gs : List String)
          → Path (Option (List String)) (some (guests_in room guests ++ guest ∷ [])) (some gs)
          → is_empty gs ≡ false
      nonempty gs p = ground (arith, is_empty-append (guests_in room guests) guest)

  pub grant-AreRooms :
      (guest : String) (hdl : Handle)
      → contains (guests_in room guests) guest ≡ true
      → AreRooms hosts guests
          (set_ordered room (set_ordered guest hdl (handles_in room grants)) grants)
  grant-AreRooms guest hdl h = record {
    hosted = v.hosted;
    inhabited = v.inhabited;
    distinct = v.distinct;
    apart = v.apart;
    granted = λ k g p. elim (key_cases room k) [
      | inl q ↦ rw (← q) (granted_self guest hdl g h (at_room g (rw (← q) at p)))
      | inr o ↦ v.granted k g (rw (handles_in-set room k _ grants, o) at p)
    ];
  }
    where
      at_room :
          (g : String)
          → is_some (
              find g (
                handles_in room
                  (set_ordered room (set_ordered guest hdl (handles_in room grants)) grants)))
            ≡ true
          → is_some (find g (set_ordered guest hdl (handles_in room grants))) ≡ true
      at_room g p = rw (handles_in-set room room _ grants, ==_refl room) at p
