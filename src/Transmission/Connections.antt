-- ===== src/Transmission/Connections.antt =====
-- The connections of users: which socket speaks for whom, and which guest sockets have access to a
-- room. `expired` tells which `connection_hdl` no longer lock; time is in nanoseconds.
pub mod Invariant
pub mod Release
pub mod Binding
pub mod Access
use text.Mathlib.Text.{starts_with}
use crossdesk_server.Common.{
  ℕ, String, Bool, true, false, ◌&&◌, ◌||◌, not, Option, none, some, List, [], ◌∷◌, ◌==◌,
  if◌then◌else◌, is_some, or_else, contains, nat_key, string_key, Assoc, find, set_ordered, erase,
}
use crossdesk_server.Transmission.State.{
  Handle, Manager, enter, leave, scoped, same_connection, has_user_connection,
}
use crossdesk_server.Transmission.Rooms.{
  is_transmission_exist, is_host_of_transmission, get_all_user_id_of_transmission,
  bind_guest_to_transmission,
}

unfoldable pub get_user_id : Manager → Handle → String
get_user_id s hdl = or_else (find hdl s.users) ""

unfoldable pub get_verified_device_id : Manager → Handle → String
get_verified_device_id s hdl = or_else (find hdl s.devices) ""

-- `true` is the result 0, `false` the result -1.
unfoldable pub update_last_active_time : Manager → Handle → ℕ → Manager × Bool
update_last_active_time s hdl now =
    if not (is_some (find hdl s.users))
    then (s, false)
    else (record s { last_active = set_ordered hdl now s.last_active }, true)

unfoldable pub remove_last_active_time : Manager → Handle → Manager
remove_last_active_time s hdl = record s { last_active = erase hdl s.last_active }

-- emplace for a controller's shared id, assignment for any other.
pub new_route : String → Handle → Assoc String Handle → Assoc String Handle
new_route user_id hdl routes =
    if starts_with user_id "C-" && is_some (find user_id routes)
    then routes
    else set_ordered user_id hdl routes

pub bound_user : Manager → String → Handle → String → Manager
unfolding new_route
bound_user s user_id hdl verified_device_id = record s {
  routes = new_route user_id hdl s.routes;
  users = set_ordered hdl user_id s.users;
  devices =
      if verified_device_id == "" then s.devices else set_ordered hdl verified_device_id s.devices;
}

module _ (expired : Handle → Bool) where
  unfoldable pub bind_user_to_ws_handle : Manager → String → Handle → String → ℕ → Manager × Bool
  unfolding bound_user update_last_active_time
  bind_user_to_ws_handle s user_id hdl verified_device_id now =
      if user_id == "" || expired hdl
      then (s, false)
      else if not (or_else (find hdl s.users) user_id == user_id)
      then (s, false)
      else ((update_last_active_time (bound_user s user_id hdl verified_device_id) hdl now).0, true)

grant_access : String → String → Handle → Manager → Manager
grant_access guest_id transmission_id hdl s = record s {
  grants =
      set_ordered transmission_id
        (set_ordered guest_id hdl (or_else (find transmission_id s.grants) [])) s.grants;
}

joined : Manager → String → String → Manager × Bool
joined s guest_id transmission_id =
    if contains (get_all_user_id_of_transmission s transmission_id) guest_id
    then (s, true)
    else bind_guest_to_transmission s guest_id transmission_id

join_with : Manager → String → String → Handle → Manager × Bool
unfolding joined grant_access
join_with s guest_id transmission_id hdl =
    let r = joined s guest_id transmission_id in
    if r.1 then (grant_access guest_id transmission_id hdl r.0, true) else (r.0, false)

module _ (expired : Handle → Bool) where
  -- The overload with a connection.
  unfoldable pub bind_guest_connection : Manager → String → String → Handle → Manager × Bool
  unfolding join_with get_user_id
  bind_guest_connection s guest_id transmission_id hdl =
      scoped
        (λ t.
          if guest_id == ""
            || expired hdl
            || not (get_user_id t hdl == guest_id)
            || not (is_transmission_exist t transmission_id)
            || is_host_of_transmission t guest_id transmission_id
          then (t, false)
          else join_with t guest_id transmission_id hdl)
        s

-- The first connection, in handle order, that speaks for the user.
pub first_connection : String → Assoc Handle String → Option Handle
first_connection user_id [] = none
first_connection user_id ((hdl, u) ∷ users) =
    if u == user_id then some hdl else first_connection user_id users

pub reassign : String → Option Handle → Assoc String Handle → Assoc String Handle
reassign user_id none routes = erase user_id routes
reassign user_id (some hdl) routes = set_ordered user_id hdl routes

pub released_from :
    String
    → Handle
    → Assoc Handle String
    → Assoc String Handle
    → Option Handle
    → Assoc String Handle
unfolding first_connection reassign
released_from user_id hdl users routes none = routes
released_from user_id hdl users routes (some current) =
    if same_connection current hdl
    then reassign user_id (first_connection user_id users) routes
    else routes

pub released_route :
    String → Handle → Assoc Handle String → Assoc String Handle → Assoc String Handle
unfolding released_from
released_route user_id hdl users routes =
    released_from user_id hdl users routes (find user_id routes)

pub release_known : Manager → Handle → Option String → Manager × String
unfolding released_route
release_known s hdl none = (s, "")
release_known s hdl (some user_id) =
    let left = erase hdl s.users in
    (record s { users = left; routes = released_route user_id hdl left s.routes }, user_id)

pub release_user_from_ws_handle : Manager → Handle → Manager × String
unfolding release_known
release_user_from_ws_handle s hdl =
    let t : Manager = record s {
      last_active = erase hdl s.last_active;
      devices = erase hdl s.devices;
    } in
    release_known t hdl (find hdl t.users)

-- 0 is the empty `connection_hdl`.
unfoldable pub get_ws_handle : Manager → String → Handle
get_ws_handle s user_id = or_else (find user_id s.routes) 0

granted_handle : Manager → String → Option (Assoc String Handle) → Handle
unfolding get_user_id
granted_handle s user_id none = 0
granted_handle s user_id (some handles) = elim (find user_id handles) [
  | none ↦ 0
  | some hdl ↦ if get_user_id s hdl == user_id then hdl else 0
]

room_handle : Manager → String → String → Option String → Handle
unfolding granted_handle get_ws_handle
room_handle s user_id transmission_id none = 0
room_handle s user_id transmission_id (some host_id) =
    if host_id == user_id
    then get_ws_handle s user_id
    else granted_handle s user_id (find transmission_id s.grants)

unfoldable pub get_room_handle : Manager → String → String → Handle
unfolding room_handle
get_room_handle s user_id transmission_id =
    if user_id == "" || transmission_id == ""
    then 0
    else room_handle s user_id transmission_id (find transmission_id s.hosts)

module _ (expired : Handle → Bool) where
  unfoldable pub is_connection_in_transmission : Manager → Handle → String → Bool
  unfolding get_room_handle
  is_connection_in_transmission s hdl transmission_id =
      not (expired hdl)
      && same_connection hdl (get_room_handle s (get_user_id s hdl) transmission_id)
