-- ===== src/Transmission/Rooms.antt =====
-- The operations on rooms: who hosts, who is a guest, and how both leave.
pub mod Invariant
pub mod Removal
pub mod Notes
pub mod Operations
pub mod Joining
pub mod Gone
use crossdesk_server.Common.{
  ℕ, suc, ◌+◌, String, Bool, true, false, ◌&&◌, ◌||◌, not, Option, none, some, List, [], ◌∷◌, ◌++◌,
  map, ◌==◌, if◌then◌else◌, is_some, or_else, is_empty, contains, remove, length, nat_key,
  string_key, Assoc, find, set_ordered, erase,
}
use crossdesk_server.Identity.{is_temporary_controller_id}
use crossdesk_server.Transmission.State.{
  Handle, Note, remote_control, Manager, enter, leave, scoped, notify_remote_control,
}

unfoldable pub is_transmission_exist : Manager → String → Bool
is_transmission_exist s transmission_id = is_some (find transmission_id s.hosts)

unfoldable pub get_host_id_of_transmission : Manager → String → String
get_host_id_of_transmission s transmission_id = or_else (find transmission_id s.hosts) ""

-- The loop of `ReleaseTransmission` over the guests.
notify_ended : Manager → String → String → List String → Manager
notify_ended s transmission_id host_id [] = s
notify_ended s transmission_id host_id (guest_id ∷ rest) =
    notify_ended (notify_remote_control s transmission_id host_id guest_id false) transmission_id
      host_id rest

drop_guests : Manager → String → String → Option (List String) → Manager
unfolding notify_ended
drop_guests s transmission_id host_id none = s
drop_guests s transmission_id host_id (some guest_ids) =
    let t = notify_ended s transmission_id host_id guest_ids in
    record t { guests = erase transmission_id t.guests }

drop_room : String → Manager → Manager
drop_room transmission_id s = record s {
  grants = erase transmission_id s.grants;
  hosts = erase transmission_id s.hosts;
}

release_room : Manager → String → Manager
unfolding drop_guests drop_room
release_room s transmission_id = drop_room transmission_id (
    drop_guests s transmission_id (or_else (find transmission_id s.hosts) "")
      (find transmission_id s.guests))

pub release_transmission : Manager → String → Manager × Bool
unfolding release_room
release_transmission s transmission_id = scoped (λ t. (release_room t transmission_id, true)) s

first_hosted : String → Assoc String String → String
first_hosted user_id [] = ""
first_hosted user_id ((transmission_id, host_id) ∷ rest) =
    if host_id == user_id then transmission_id else first_hosted user_id rest

-- The first room, in key order, that the user hosts.
pub is_host : Manager → String → String
unfolding first_hosted
is_host s user_id = first_hosted user_id s.hosts

first_joined : String → Assoc String (List String) → String
first_joined user_id [] = ""
first_joined user_id ((transmission_id, guest_ids) ∷ rest) =
    if contains guest_ids user_id then transmission_id else first_joined user_id rest

pub is_guest : Manager → String → String
unfolding first_joined
is_guest s user_id = first_joined user_id s.guests

unfoldable pub is_host_of_transmission : Manager → String → String → Bool
is_host_of_transmission s user_id transmission_id = elim (find transmission_id s.hosts) [
  | none ↦ false
  | some host_id ↦ host_id == user_id
]

host_list : Option String → List String
host_list none = []
host_list (some host_id) = host_id ∷ []

unfoldable pub get_all_user_id_of_transmission : Manager → String → List String
unfolding host_list
get_all_user_id_of_transmission s transmission_id =
    host_list (find transmission_id s.hosts) ++ or_else (find transmission_id s.guests) []

unfoldable pub bind_host_to_transmission : Manager → String → String → Manager × Bool
bind_host_to_transmission s host_id transmission_id =
    if is_temporary_controller_id host_id || is_temporary_controller_id transmission_id
    then (s, false)
    else if not (is_some (find transmission_id s.hosts))
    then (record s { hosts = set_ordered transmission_id host_id s.hosts }, true)
    else (s, false)

-- `operator[]` makes an empty list for a room without guests.
add_guest : Manager → String → String → String → List String → Manager × Bool
add_guest s guest_id transmission_id host_id guest_ids =
    if contains guest_ids guest_id
    then (record s { guests = set_ordered transmission_id guest_ids s.guests }, false)
    else (
      notify_remote_control
          (record s { guests = set_ordered transmission_id (guest_ids ++ guest_id ∷ []) s.guests })
          transmission_id host_id guest_id true,
      true,
    )

join_room : Manager → String → String → Option String → Manager × Bool
unfolding add_guest
join_room s guest_id transmission_id none = (s, false)
join_room s guest_id transmission_id (some host_id) =
    if host_id == guest_id
    then (s, false)
    else add_guest s guest_id transmission_id host_id (or_else (find transmission_id s.guests) [])

-- The overload without a connection.
unfoldable pub bind_guest_to_transmission : Manager → String → String → Manager × Bool
unfolding join_room
bind_guest_to_transmission s guest_id transmission_id =
    scoped
      (λ t.
        if guest_id == "" || transmission_id == ""
        then (t, false)
        else join_room t guest_id transmission_id (find transmission_id t.hosts))
      s

revoke_from :
    String
    → String
    → Assoc String (Assoc String Handle)
    → Option (Assoc String Handle)
    → Assoc String (Assoc String Handle)
revoke_from guest_id transmission_id grants none = grants
revoke_from guest_id transmission_id grants (some handles) =
    let rest = erase guest_id handles in
    if is_empty rest then erase transmission_id grants else set_ordered transmission_id rest grants

pub revoke :
    String → String → Assoc String (Assoc String Handle) → Assoc String (Assoc String Handle)
unfolding revoke_from
revoke guest_id transmission_id grants =
    revoke_from guest_id transmission_id grants (find transmission_id grants)

remove_guest : Manager → String → String → Option (List String) → Manager × Bool
unfolding get_host_id_of_transmission revoke
remove_guest s guest_id transmission_id none = (s, false)
remove_guest s guest_id transmission_id (some guest_ids) =
    if not (contains guest_ids guest_id)
    then (s, false)
    else let t =
        notify_remote_control s transmission_id (get_host_id_of_transmission s transmission_id)
          guest_id false in
      let left = remove guest_id guest_ids in
      (
        record t {
          grants = revoke guest_id transmission_id t.grants;
          guests =
              if is_empty left
              then erase transmission_id t.guests
              else set_ordered transmission_id left t.guests;
        },
        true,
      )

-- The overload for one room.
unfoldable pub release_guest_from_transmission : Manager → String → String → Manager × Bool
unfolding remove_guest
release_guest_from_transmission s guest_id transmission_id =
    scoped (λ t. remove_guest t guest_id transmission_id (find transmission_id t.guests)) s

-- The loop over the rooms: a round removes no other room's entry.
release_guest_from : Manager → String → List String → Manager × Bool
unfolding release_guest_from_transmission
release_guest_from s guest_id [] = (s, false)
release_guest_from s guest_id (transmission_id ∷ rest) =
    let r = release_guest_from_transmission s guest_id transmission_id in
    let later = release_guest_from r.0 guest_id rest in (later.0, r.1 || later.1)

pub release_guest_everywhere : Manager → String → Manager × Bool
unfolding release_guest_from
release_guest_everywhere s guest_id =
    scoped (λ t. release_guest_from t guest_id (map (λ room. room.0) t.guests)) s

pub disconnect_transmission : Manager → String → Manager × Bool
unfolding is_transmission_exist release_transmission
disconnect_transmission s transmission_id =
    scoped
      (λ t.
        if not (is_transmission_exist t transmission_id)
        then (t, true)
        else release_transmission t transmission_id)
      s
