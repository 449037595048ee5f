-- ===== src/Presence/Examples.antt =====
-- Tests of presence, with a database that is the list of the ids it has online.
use crossdesk_server.Common.{
  String, true, false, ◌&&◌, some, List, [], ◌∷◌, ◌++◌, map, ◌≡◌, refl, if◌then◌else◌, contains,
  remove, insert_set, string_key, find,
}
use crossdesk_server.Identity.{is_temporary_controller_id}
use crossdesk_server.Presence.{Database, Presence, new_presence, notify_user_devices, on_login}
use crossdesk_server.Presence.Tracking.{
  Call, login, logout, watched, Tracks, online_after_all, perform_all, perform_all-Tracks,
}
use crossdesk_server.Presence.Watching.{watches, reachable, notify_user_devices-told}

abbrev table : Database (List String)
table = record {
  set_device_online = λ d id online. if online then insert_set id d else remove id d;
  batch_query_online = λ d ids. map (λ id. (id, contains d id)) ids;
}

abbrev watched_once : Presence (List String)
watched_once = record new_presence {
  db = some ("bob" ∷ []);
  has_sender = true;
  associations = ("bob", "alice" ∷ []) ∷ ("carol", "alice" ∷ []) ∷ [];
}

abbrev day : List Call
day = login "alice" ∷ login "web-1" ∷ watched "alice" ("bob" ∷ []) true ∷ logout "alice" ∷ []

-- Only the watcher that is online is told.
login-sent :
    (on_login table watched_once "alice").sent
    ≡ ("bob", record { id = "alice"; online = true }) ∷ []
unfolding on_login contains is_temporary_controller_id insert_set
login-sent = refl

perform_all-Tracks_example :
    Tracks (online_after_all day (λ x. false)) (perform_all table day new_presence)
unfolding contains
perform_all-Tracks_example =
    perform_all-Tracks table day (λ x. false) new_presence
      (record { devices = λ x. refl; web = λ x. refl; cli = λ x. refl })

notify_user_devices-told_example :
    (told : List String) × (((notify_user_devices table watched_once "alice" true).sent
        ≡ [] ++ map (λ id. (id, record { id = "alice"; online = true })) told)
      × ((user : String)
          → contains told user ≡ (
              watches watched_once user "alice"
              && reachable contains watched_once.db "alice" user)))
unfolding find
notify_user_devices-told_example =
    notify_user_devices-told table contains watched_once "alice" true (λ d ids. refl)
      (refl, (refl, tt)) refl
