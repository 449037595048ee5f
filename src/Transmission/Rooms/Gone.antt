-- ===== src/Transmission/Rooms/Gone.antt =====
-- Who is in a room after it was released, or after a guest left.
use crossdesk_server.Common.{
  String, ◌≡◌, refl, ◌∙◌, false, ◌||◌, Option, none, some, List, [], ◌∷◌, ◌++◌, ◌==◌, or_else,
  contains, contains-remove, remove, string_key, find, find-erase, Bool-cases, inl, inr, ==_refl,
  arith,
}
use crossdesk_server.Transmission.State.{Manager, enter, notify_remote_control}
use crossdesk_server.Transmission.Rooms.{
  get_all_user_id_of_transmission, is_host_of_transmission, release_transmission, release_room,
  drop_guests, notify_ended, drop_room, release_guest_from_transmission, remove_guest, host_list,
}
use crossdesk_server.Transmission.Rooms.Invariant.{guests_in}
use crossdesk_server.Transmission.Rooms.Removal.{guests_in-left_in}

notify_ended-maps :
    (s : Manager) (room host : String) (guest_ids : List String)
    → ((notify_ended s room host guest_ids).guests ≡ s.guests)
      × ((notify_ended s room host guest_ids).hosts ≡ s.hosts)
unfolding notify_ended
notify_ended-maps s room host [] = (refl, refl)
notify_ended-maps s room host (guest ∷ rest) =
    notify_ended-maps (notify_remote_control s room host guest false) room host rest

no_guests :
    (s : Manager) (room host : String) (o : Option (List String))
    → find room s.guests ≡ o
    → guests_in room (drop_guests s room host o).guests ≡ []
unfolding drop_guests
no_guests s room host none e = rw e refl
no_guests s room host (some guest_ids) e =
    rw ((notify_ended-maps s room host guest_ids).0, find-erase room room s.guests, ==_refl room)
      refl

no_users :
    (s : Manager) (room : String)
    → guests_in room s.guests ≡ []
    → get_all_user_id_of_transmission (drop_room room s) room ≡ []
unfolding get_all_user_id_of_transmission drop_room
no_users s room h = rw (find-erase room room s.hosts, ==_refl room, h, host_list) refl

-- A room that was released has no users.
pub release_transmission-empty :
    (s : Manager) (room : String)
    → get_all_user_id_of_transmission (release_transmission s room).0 room ≡ []
unfolding get_all_user_id_of_transmission release_transmission release_room
release_transmission-empty s room =
    no_users (drop_guests (enter s) room (or_else (find room s.hosts) "") (find room s.guests)) room
      (no_guests (enter s) room (or_else (find room s.hosts) "") (find room s.guests) refl)

remove_guest-gone :
    (s : Manager) (guest room : String) (o : Option (List String))
    → find room s.guests ≡ o
    → contains (guests_in room (remove_guest s guest room o).0.guests) guest ≡ false
unfolding remove_guest
remove_guest-gone s guest room none e = rw e (unfold contains in refl)
remove_guest-gone s guest room (some guest_ids) e = elim (Bool-cases (contains guest_ids guest)) [
  | inl c ↦
      rw
        (
          c,
          guests_in-left_in room room (remove guest guest_ids) s.guests,
          ==_refl room,
          contains-remove guest guest_ids guest,
          ==_refl guest,
        )
        refl
  | inr c ↦ rw (c, e) c
]

-- A guest who left is no guest.
pub release_guest-gone :
    (s : Manager) (guest room : String)
    → contains (guests_in room (release_guest_from_transmission s guest room).0.guests) guest
      ≡ false
unfolding release_guest_from_transmission
release_guest-gone s guest room = remove_guest-gone (enter s) guest room (find room s.guests) refl

remove_guest-hosts :
    (s : Manager) (guest room : String) (o : Option (List String))
    → (remove_guest s guest room o).0.hosts ≡ s.hosts
unfolding remove_guest
remove_guest-hosts s guest room none = refl
remove_guest-hosts s guest room (some guest_ids) = elim (Bool-cases (contains guest_ids guest)) [
  | inl c ↦ rw c refl
  | inr c ↦ rw c refl
]

pub release_guest-hosts :
    (s : Manager) (guest room : String)
    → (release_guest_from_transmission s guest room).0.hosts ≡ s.hosts
unfolding release_guest_from_transmission
release_guest-hosts s guest room = remove_guest-hosts (enter s) guest room (find room s.guests)

contains-host_list :
    (m : Manager) (room user : String)
    → is_host_of_transmission m user room ≡ false
    → contains (host_list (find room m.hosts)) user ≡ false
unfolding is_host_of_transmission
contains-host_list m room user h = by_case (find room m.hosts) h
  where
    by_case :
        (o : Option String)
        → elim o [ none ↦ false | some host_id ↦ host_id == user ] ≡ false
        → contains (host_list o) user ≡ false
    by_case none h = unfold host_list contains in refl
    by_case (some host) h = unfold host_list contains in rw h refl

contains-join :
    (xs ys : List String) (x : String) → contains (xs ++ ys) x ≡ (contains xs x || contains ys x)
unfolding contains
contains-join [] ys x = refl
contains-join (y ∷ xs) ys x = ground (arith, contains-join xs ys x)

-- A guest who left is no user of the room, unless it is the host.
pub release_guest-absent :
    (m : Manager) (guest room : String)
    → is_host_of_transmission m guest room ≡ false
    → contains
        (get_all_user_id_of_transmission (release_guest_from_transmission m guest room).0 room)
        guest
      ≡ false
unfolding get_all_user_id_of_transmission
release_guest-absent m guest room h =
    let t : Manager = (release_guest_from_transmission m guest room).0 in
    contains-join (host_list (find room t.hosts)) (guests_in room t.guests) guest
    ∙ rw
        (
          release_guest-hosts m guest room,
          contains-host_list m room guest h,
          release_guest-gone m guest room,
        )
        refl
