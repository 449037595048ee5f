-- ===== src/Transmission/Rooms/Joining.antt =====
-- A guest that was let into a room is in its guest list.
use crossdesk_server.Common.{
  String, ◌≡◌, refl, Bool, true, false, ◌||◌, Option, none, some, List, [], ◌∷◌, ◌++◌, ◌==◌,
  or_else, contains, contains-append, string_key, find, Bool-cases, ==_refl, inl, inr, arith,
}
use crossdesk_server.Transmission.State.{Manager, enter}
use crossdesk_server.Transmission.Rooms.Invariant.{guests_in, guests_in-set}
use crossdesk_server.Transmission.Rooms.{
  bind_guest_to_transmission, join_room, add_guest, is_host_of_transmission,
  get_all_user_id_of_transmission, host_list,
}

abbrev pub Joined : String → String → Manager × Bool → Type 0
Joined guest room r = r.1 ≡ true → contains (guests_in room r.0.guests) guest ≡ true

add_guest-Joined :
    (s : Manager) (guest room host : String) (gs : List String)
    → Joined guest room (add_guest s guest room host gs)
unfolding add_guest
add_guest-Joined s guest room host gs = elim (Bool-cases (contains gs guest)) [
  | inl e ↦ rw e (λ h. cc)
  | inr e ↦ rw e (λ h.
      rw (guests_in-set room room (gs ++ guest ∷ []) s.guests, ==_refl room)
        (ground (arith, contains-append gs guest guest, ==_refl guest)))
]

join_room-Joined :
    (s : Manager) (guest room : String) (o : Option String)
    → Joined guest room (join_room s guest room o)
unfolding join_room
join_room-Joined s guest room none = λ h. cc
join_room-Joined s guest room (some host) = elim (Bool-cases (host == guest)) [
  | inl e ↦ rw e (λ h. cc)
  | inr e ↦ rw e (add_guest-Joined s guest room host (or_else (find room s.guests) []))
]

pub bind_guest-Joined :
    (s : Manager) (guest room : String)
    → Joined guest room (bind_guest_to_transmission s guest room)
unfolding bind_guest_to_transmission
bind_guest-Joined s guest room = elim (Bool-cases (guest == "" || room == "")) [
  | inl e ↦ rw e (λ h. cc)
  | inr e ↦ rw e (join_room-Joined (enter s) guest room (find room s.hosts))
]

-- A member of a room that is not its host is a guest.
pub member_guest :
    (s : Manager) (guest room : String)
    → is_host_of_transmission s guest room ≡ false
    → contains (get_all_user_id_of_transmission s room) guest ≡ true
    → contains (guests_in room s.guests) guest ≡ true
unfolding is_host_of_transmission get_all_user_id_of_transmission contains
member_guest s guest room h m = by_case (find room s.hosts) refl
  where
    by_case :
        (o : Option String)
        → find room s.hosts ≡ o
        → contains (guests_in room s.guests) guest ≡ true
    by_case none e = rw (e, host_list) at m
    by_case (some host) e = ground arith
