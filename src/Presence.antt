-- ===== src/Presence.antt =====
-- src/presence_manager.{h,cpp}: who is online and who is told about it.
-- The database is a record of what the code calls of it; `sent` lists the messages given to
-- `send_to_device_`. A set is a list without repetitions. A call is one step: the locks of one
-- call are taken one after another, which other calls could come between.
pub mod Tracking
pub mod Watching
mod Examples
use Prim.Native.String.{◌++◌ as append}
use text.Mathlib.Text.{starts_with}
use crossdesk_server.Common.{
  ℕ, String, Bool, true, false, ◌&&◌, ◌||◌, not, Option, none, some, List, [], ◌∷◌, ◌++◌, map, ◌==◌,
  if◌then◌else◌, or_else, is_empty, contains, keep, remove, insert_set, length, string_key, Assoc,
  find, set, erase,
}
use crossdesk_server.Identity.{is_temporary_controller_id}

pub record Database (D : Type 0) : Type 0 where
  pub set_device_online : D → String → Bool → D
  pub batch_query_online : D → List String → List (String × Bool)

-- The message "presence_update".
pub record Update : Type 0 where
  pub id : String
  pub online : Bool

pub record Presence (D : Type 0) : Type 0 where
  pub db : Option D
  pub has_sender : Bool
  pub associations : Assoc String (List String)
  pub online_devices : List String
  pub online_web_clients : List String
  pub online_cli_clients : List String
  pub sent : List (String × Update)

pub is_web_client : String → Bool
is_web_client device_id = starts_with device_id "web-"

pub is_clone_client : String → Bool
is_clone_client device_id = starts_with device_id "C-"

pub should_track_online_device : String → Bool
unfolding is_clone_client
should_track_online_device device_id =
    not (is_temporary_controller_id device_id) && not (is_clone_client device_id)

insert_all : List String → List String → List String
insert_all [] watched = watched
insert_all (id ∷ ids) watched = insert_all ids (insert_set id watched)

-- !res.empty() && res[0].second
first_online : List (String × Bool) → Bool
first_online [] = false
first_online ((id, online) ∷ rest) = online

pub watchers_of : String → Assoc String (List String) → List String
watchers_of changed_device_id [] = []
watchers_of changed_device_id ((watcher, watched) ∷ rest) =
    let later = watchers_of changed_device_id rest in
    if contains watched changed_device_id then watcher ∷ later else later

-- The loop over the statuses of the watchers.
pub online_targets : String → List (String × Bool) → List String
online_targets changed_device_id [] = []
online_targets changed_device_id ((id, online) ∷ rest) =
    let later = online_targets changed_device_id rest in
    if id == changed_device_id then later else if online then id ∷ later else later

forget_in : String → String → Assoc String (List String) → Assoc String (List String)
forget_in device_id clone [] = []
forget_in device_id clone ((watcher, watched) ∷ rest) =
    (watcher, remove clone (remove device_id watched)) ∷ forget_in device_id clone rest

module _ {D : Type 0} where
  abbrev pub new_presence : Presence D
  new_presence = record {
    db = none;
    has_sender = false;
    associations = [];
    online_devices = [];
    online_web_clients = [];
    online_cli_clients = [];
    sent = [];
  }

  pub set_device_db : Presence D → D → Presence D
  set_device_db p d = record p { db = some d }

  pub set_send_to_device_callback : Presence D → Presence D
  set_send_to_device_callback p = record p { has_sender = true }

  -- The branches of `OnLogin` and `OnLogout` on the class of the id.
  pub track_login : String → Presence D → Presence D
  unfolding should_track_online_device is_web_client
  track_login device_id p =
      if should_track_online_device device_id
      then record p { online_devices = insert_set device_id p.online_devices }
      else if is_web_client device_id
      then record p { online_web_clients = insert_set device_id p.online_web_clients }
      else if starts_with device_id "cli-"
      then record p { online_cli_clients = insert_set device_id p.online_cli_clients }
      else p

  pub track_logout : String → Presence D → Presence D
  unfolding should_track_online_device is_web_client
  track_logout device_id p =
      if should_track_online_device device_id
      then record p { online_devices = remove device_id p.online_devices }
      else if is_web_client device_id
      then record p { online_web_clients = remove device_id p.online_web_clients }
      else if starts_with device_id "cli-"
      then record p { online_cli_clients = remove device_id p.online_cli_clients }
      else p

  pub forget_offline_device_data : Presence D → String → Presence D
  unfolding forget_in
  forget_offline_device_data p device_id =
      let clone = append "C-" device_id in
      record p {
        associations = forget_in device_id clone (erase clone (erase device_id p.associations));
      }

  pub get_online_device_count : Presence D → ℕ
  get_online_device_count p = length p.online_devices

  pub get_online_web_client_count : Presence D → ℕ
  get_online_web_client_count p = length p.online_web_clients

  pub get_online_cli_client_count : Presence D → ℕ
  get_online_cli_client_count p = length p.online_cli_clients

  pub update_user_devices : Presence D → String → List String → Bool → Presence D
  unfolding insert_all
  update_user_devices p user_id device_ids replace =
      let watched = or_else (find user_id p.associations) [] in
      record p {
        associations =
            set user_id (insert_all device_ids (if replace then [] else watched)) p.associations;
      }

module _ {D : Type 0} (database : Database D) where
  set_online : String → Bool → Option D → Option D
  set_online device_id online none = none
  set_online device_id online (some d) = some (database.set_device_online d device_id online)

  pub targets_of : Option D → String → List String → List String
  unfolding online_targets
  targets_of none changed_device_id watchers = watchers
  targets_of (some d) changed_device_id watchers =
      online_targets changed_device_id (database.batch_query_online d watchers)

  pub notify_user_devices : Presence D → String → Bool → Presence D
  unfolding watchers_of targets_of
  notify_user_devices p changed_device_id online =
      let watchers = watchers_of changed_device_id p.associations in
      if not p.has_sender || is_empty watchers
      then p
      else let update : Update = record { id = changed_device_id; online = online } in
        record p {
          sent = p.sent ++ map (λ id. (id, update)) (targets_of p.db changed_device_id watchers);
        }

  pub on_login : Presence D → String → Presence D
  unfolding track_login set_online notify_user_devices
  on_login p device_id =
      let t = track_login device_id p in
      notify_user_devices (record t { db = set_online device_id true t.db }) device_id true

  pub on_logout : Presence D → String → Presence D
  unfolding track_logout set_online notify_user_devices forget_offline_device_data
  on_logout p device_id =
      let t = track_logout device_id (record p { associations = erase device_id p.associations }) in
      let off : Presence D = record t { db = set_online device_id false t.db } in
      let told = if not (device_id == "") then notify_user_devices off device_id false else off in
      if is_temporary_controller_id device_id
      then forget_offline_device_data told device_id
      else told

  pub is_online : Presence D → String → Bool
  unfolding first_online
  is_online p device_id = elim p.db [
    | none ↦ false
    | some d ↦ first_online (database.batch_query_online d (device_id ∷ []))
  ]

  pub batch_query : Presence D → List String → List (String × Bool)
  batch_query p device_ids = elim p.db [
    | none ↦ []
    | some d ↦ database.batch_query_online d device_ids
  ]
