-- ===== src/Transmission/Rooms/Removal.antt =====
-- A guest leaves a room: the room keeps its invariant, and the guest's access is gone.
use crossdesk_server.Common.{
  String, ◌≡◌, refl, true, false, Option, none, some, List, [], ◌∷◌, ◌==◌, if◌then◌else◌, is_some,
  or_else, is_empty, contains, contains-remove, remove, remove-AllDistinct, string_key, Assoc, find,
  set_ordered, erase, find-set_ordered, find-erase, Bool-cases, Option-cases, ==_refl, inl, inr,
  arith,
}
use crossdesk_server.Transmission.State.{Handle}
use crossdesk_server.Transmission.Rooms.{revoke, revoke_from}
use crossdesk_server.Transmission.Rooms.Invariant.{
  guests_in, handles_in, AreRooms, key_cases, guests_in-set, guests_in-erase, handles_in-set,
  handles_in-erase,
}

-- The guest list that is left: none at all for a room without guests.
abbrev pub left_in : String → List String → Assoc String (List String) → Assoc String (List String)
left_in room left guests = if is_empty left then erase room guests else set_ordered room left guests

if_empty : (left : List String) → is_empty left ≡ true → left ≡ []
if_empty [] h = refl
if_empty (x ∷ xs) h = cc

if_no_handles : (left : Assoc String Handle) → is_empty left ≡ true → left ≡ []
if_no_handles [] h = refl
if_no_handles (x ∷ xs) h = cc

pub guests_in-left_in :
    (room k : String) (left : List String) (guests : Assoc String (List String))
    → guests_in k (left_in room left guests) ≡ (if room == k then left else guests_in k guests)
guests_in-left_in room k left guests =
    ground (arith, if_empty left, guests_in-set room k left guests, guests_in-erase room k guests)

find-left_in :
    (room k : String) (left : List String) (guests : Assoc String (List String))
    → find k (left_in room left guests)
      ≡ (if room == k then (if is_empty left then none else some left) else find k guests)
find-left_in room k left guests =
    ground (arith, find-set_ordered room k left guests, find-erase room k guests)

pub handles_in-revoke :
    (guest room k : String) (grants : Assoc String (Assoc String Handle))
    → handles_in k (revoke guest room grants)
      ≡ (if room == k then erase guest (handles_in room grants) else handles_in k grants)
unfolding revoke
handles_in-revoke guest room k grants = by_case (find room grants) refl
  where
    by_case :
        (o : Option (Assoc String Handle))
        → find room grants ≡ o
        → handles_in k (revoke_from guest room grants o)
          ≡ (if room == k then erase guest (or_else o []) else handles_in k grants)
    by_case none e = elim (key_cases room k) [
      | inl q ↦ rw (← q, ==_refl room, e) (unfold erase in refl)
      | inr o ↦ rw o
    ]
    by_case (some hs) e = ground (
      arith,
      if_no_handles (erase guest hs),
      handles_in-set room k (erase guest hs) grants,
      handles_in-erase room k grants,
    )

module _ (hosts : Assoc String String) (guests : Assoc String (List String))
    (grants : Assoc String (Assoc String Handle)) (v : AreRooms hosts guests grants)
    (room guest : String) where
  remaining_apart :
      (h : String)
      → find room hosts ≡ some h
      → contains (remove guest (guests_in room guests)) h ≡ false
  remaining_apart h p =
      ground (arith, contains-remove guest (guests_in room guests) h, v.apart room h)

  still_guest :
      (g : String)
      → is_some (find g (erase guest (handles_in room grants))) ≡ true
      → contains (remove guest (guests_in room guests)) g ≡ true
  still_guest g p = ground (
    arith,
    contains-remove guest (guests_in room guests) g,
    v.granted room g,
    find-erase guest g (handles_in room grants),
  )

  at_room :
      (g : String)
      → is_some (find g (handles_in room (revoke guest room grants))) ≡ true
      → is_some (find g (erase guest (handles_in room grants))) ≡ true
  at_room g p = rw (handles_in-revoke guest room room grants, ==_refl room) at p

  absent : find room guests ≡ none → contains (guests_in room guests) guest ≡ false
  absent e = rw e (unfold contains in refl)

  none_left :
      (k : String) (gs : List String)
      → contains (guests_in room guests) guest ≡ true
      → find k (left_in room (remove guest (guests_in room guests)) guests) ≡ some gs
      → find k guests ≡ none
      → ⊥
  none_left k gs m h e = elim (key_cases room k) [
    | inl q ↦ ground (arith, absent (rw (← q) at e))
    | inr o ↦ ground (arith, find-left_in room k (remove guest (guests_in room guests)) guests)
  ]

  pub remove_guest-AreRooms :
      contains (guests_in room guests) guest ≡ true
      → AreRooms hosts
          (left_in room (remove guest (guests_in room guests)) guests)
          (revoke guest room grants)
  remove_guest-AreRooms m = record {
    hosted = λ k gs h. elim (Option-cases (find k guests)) [
      | inl e ↦ absurd (none_left k gs m h e)
      | inr (old, e) ↦ v.hosted k old e
    ];
    inhabited = λ k gs h. ground (
      arith,
      find-left_in room k (remove guest (guests_in room guests)) guests,
      v.inhabited k gs,
    );
    distinct = λ k. rw (guests_in-left_in room k _ guests) (elim (Bool-cases (room == k)) [
      | inl q ↦ rw q (remove-AllDistinct guest (guests_in room guests) (v.distinct room))
      | inr o ↦ rw o (v.distinct k)
    ]);
    apart = λ k h p. rw (guests_in-left_in room k _ guests) (elim (key_cases room k) [
      | inl q ↦ rw (← q, ==_refl room) (remaining_apart h (rw (← q) at p))
      | inr o ↦ rw o (v.apart k h p)
    ]);
    granted = λ k g p. rw (guests_in-left_in room k _ guests) (elim (key_cases room k) [
      | inl q ↦ rw (← q, ==_refl room) (still_guest g (at_room g (rw (← q) at p)))
      | inr o ↦ rw o (v.granted k g (rw (handles_in-revoke guest room k grants, o) at p))
    ]);
  }
