-- ===== src/Negotiation/Fixture.antt =====
-- A room with a host and a guest, reached by calls, and collaborators for the tests: a database that
-- accepts everything, and issuers that are not configured.
use crossdesk_server.Common.{
  String, ◌≡◌, refl, subst, Bool, true, false, none, some, List, [], ◌∷◌, find, set_ordered,
  contains, string_key, nat_key, nat_beq,
}
use crossdesk_server.Identity.{is_temporary_controller_id}
use crossdesk_server.AuthLimiter.Bucket.{exponential}
use crossdesk_server.Transmission.State.{
  Handle, Manager, remote_control, new_manager, same_connection,
  set_remote_control_session_callback,
}
use crossdesk_server.Transmission.Rooms.{
  bind_host_to_transmission, bind_guest_to_transmission, is_transmission_exist,
  is_host_of_transmission, get_all_user_id_of_transmission,
}
use crossdesk_server.Transmission.Soundness.{IsSound}
use crossdesk_server.Transmission.Connections.{
  bind_user_to_ws_handle, bind_guest_connection, update_last_active_time, get_user_id,
}
use crossdesk_server.Transmission.Calls.{
  Event, call, bind_host, bind_user, bind_guest_with, run, handle, perform, started, run-IsSound,
  started-IsSound,
}
use crossdesk_server.Negotiation.State.{Database, Environment, Negotiation}

abbrev pub live : Handle → Bool
live h = nat_beq h 0

abbrev join : List ((Handle → Bool) × Event)
join =
    (live, call (bind_user "host" 1 "" 0))
    ∷ (live, call (bind_host "host" "room"))
    ∷ (live, call (bind_user "C-guest" 2 "" 0))
    ∷ (live, call (bind_guest_with "C-guest" "room" 2))
    ∷ []

abbrev pub meeting : Manager
meeting = record new_manager {
  hosts = ("room", "host") ∷ [];
  guests = ("room", "C-guest" ∷ []) ∷ [];
  grants = ("room", ("C-guest", 2) ∷ []) ∷ [];
  routes = ("C-guest", 2) ∷ ("host", 1) ∷ [];
  users = (1, "host") ∷ (2, "C-guest") ∷ [];
  last_active = (1, 0) ∷ (2, 0) ∷ [];
  remote_callback = true;
  delivered = remote_control "room" "host" "C-guest" true ∷ [];
}

reached : run started join ≡ meeting
unfolding run handle perform bind_user_to_ws_handle bind_guest_connection bind_host_to_transmission
    bind_guest_to_transmission is_transmission_exist is_host_of_transmission
    get_all_user_id_of_transmission is_temporary_controller_id set_remote_control_session_callback
    same_connection find set_ordered contains get_user_id update_last_active_time
reached = refl

pub meeting-IsSound : IsSound meeting
meeting-IsSound =
    subst IsSound reached
      (run-IsSound started join (refl, (refl, (refl, (refl, tt)))) started-IsSound)

-- The log of the database's writes, with passwords as their own records.
abbrev pub open_database : Database (List String) String
open_database = record {
  update_device_client_info = λ d id version platform. (("info " ∷ d), true);
  password_risk_delay = λ d source controller. some 0;
  read_password = λ d id. some "secret";
  commit_password = λ d id old new. (("password" ∷ d), true);
  bind_login_public_key = λ d id stored key. (("key" ∷ d), true);
  read_login_public_key = λ d id. some "";
  register_device = λ d kind password stored key.
      (("register" ∷ d), record { device_id = "123"; password = password; update = false });
  remove_device = λ d id. (("remove" ∷ d), true);
  start_remote_control_session = λ d room host guest. (("session" ∷ d), true);
  revoke_reconnect_credential = λ d id. (("revoke" ∷ d), true);
  issue_reconnect_credential = λ d id. (d, none);
  verify_reconnect_credential = λ d id token. none;
}

abbrev pub test_environment : Environment (List String) String
test_environment = record {
  expired = live;
  now = 0;
  database = open_database;
  ice_config = none;
  turn_credentials = none;
  dump = λ parts. "key";
  hash = λ password. some password;
  verify = λ stored password. stored;
  generated_password = "abc123";
  fingerprint = λ password. password;
  issue_session = some (λ d m room host guest hdl. (("ticket" ∷ d), []));
}

abbrev pub negotiation : Negotiation (List String)
negotiation = record {
  manager = meeting;
  db = [];
  auth = record {
    source_failure_limit = 5;
    target_failure_limit = 5;
    policy = exponential;
    sources = [];
    targets = [];
    next_cleanup = 0;
  };
  work = record { source_limit = 60; next_cleanup = 0; sources = [] };
  results = [];
  result_order = [];
  sent = [];
}
