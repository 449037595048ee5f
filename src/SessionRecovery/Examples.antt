-- ===== src/SessionRecovery/Examples.antt =====
-- A session that is restored, one that is not, and the theorems on them.
use crossdesk_server.Common.{
  ℕ, ◌⊎◌, ◌≡◌, refl, subst, Bool, true, false, some, List, [], ◌∷◌, find, set_ordered, erase,
  revise, contains, string_key, nat_key, nat_beq, pair_key, remove as remove_value,
}
use crossdesk_server.Transmission.State.{
  Handle, Manager, new_manager, remote_control, same_connection,
  set_remote_control_session_callback,
}
use crossdesk_server.Transmission.Rooms.{
  get_host_id_of_transmission, bind_host_to_transmission, bind_guest_to_transmission,
  is_transmission_exist, is_host_of_transmission, get_all_user_id_of_transmission,
  release_guest_from_transmission,
}
use crossdesk_server.Transmission.Soundness.{IsSound}
use crossdesk_server.Transmission.Connections.{
  get_user_id, bind_guest_connection, bind_user_to_ws_handle, update_last_active_time,
}
use crossdesk_server.Identity.{is_temporary_controller_id}
use crossdesk_server.Transmission.Calls.{
  Event, call, bind_host, bind_guest, remote_callback, bind_user, perform, handle, run, started,
  run-IsSound, started-IsSound, new_manager-IsSound,
}
use crossdesk_server.Negotiation.Json.{string, boolean, Object}
use crossdesk_server.SessionRecovery.State.{
  ok, Ticket, Row, SessionStore, RecoveryEnvironment, Recovery,
}
use crossdesk_server.SessionRecovery.Tickets.{
  restart, read_tickets, read_legacy, start_session, end_session, remove,
}
use crossdesk_server.SessionRecovery.Reports.{
  store_ticket, acknowledged, joined, with_room, both_ready, resume, reported, report_alive,
  report_ticket, as_boolean, report_fields, report,
}
use crossdesk_server.SessionRecovery.Reports.Resuming.{Resumed, report-Resumed}
use crossdesk_server.SessionRecovery.Expiry.{
  is_stale, expire_ticket, expire_tickets, expire_legacy_ticket, forget_legacy, expire_legacy,
  expire,
}
use crossdesk_server.SessionRecovery.Expiry.Deadline.{LeavesInTime, expire-deadline}
use crossdesk_server.SessionRecovery.Keeping.{IsKept}
use crossdesk_server.SessionRecovery.Keeping.Runs.{
  Request, on_report, on_expire, other, serve, serve_all, restart-run-IsKept, restart-IsKept,
}

-- A database that has every session and accepts every statement; its state counts the writes.
abbrev store : SessionStore ℕ
store = record {
  save = λ d row. ok d;
  exists = λ d row. ok true;
  remove = λ d key. ok d;
  count = λ d. ok 1;
  start_remote_control_session = λ d room host guest. (d, true);
  end_remote_control_session = λ d room host guest. (d, true);
}

abbrev at : ℕ → RecoveryEnvironment ℕ
at now = record {
  expired = λ h. nat_beq h 0;
  now = now;
  store = store;
  is_one = λ v. true;
  token = some "token";
}

-- Both ends are connected, and the room is gone.
abbrev connected : Manager
connected = record started {
  routes = ("C-guest", 2) ∷ ("host", 1) ∷ [];
  users = (1, "host") ∷ (2, "C-guest") ∷ [];
  last_active = (1, 0) ∷ (2, 0) ∷ [];
}

abbrev live : Handle → Bool
live h = nat_beq h 0

abbrev logins : List ((Handle → Bool) × Event)
logins = (live, call (bind_user "host" 1 "" 0)) ∷ (live, call (bind_user "C-guest" 2 "" 0)) ∷ []

reached : run started logins ≡ connected
unfolding run handle perform bind_user_to_ws_handle update_last_active_time get_user_id
    same_connection find set_ordered set_remote_control_session_callback
reached = refl

connected-IsSound : IsSound connected
connected-IsSound =
    subst IsSound reached (run-IsSound started logins (refl, (refl, tt)) started-IsSound)

abbrev rows : List Row
rows = (record { tx = "room"; host = "host"; guest = "C-guest"; token = "token" }) ∷ []

abbrev restarted : Recovery ℕ
restarted = restart 100 30 connected 0 rows []

abbrev alive : Object
alive =
    ("transmission_id", string "room")
    ∷ ("guest_id", string "C-guest")
    ∷ ("token", string "token")
    ∷ ("alive", boolean true)
    ∷ []

-- The ticket of `rows`, before and after its two ends report.
abbrev ticket : Bool → Bool → Bool → Handle → Handle → Ticket
ticket host_ready guest_ready recovering host_hdl guest_hdl = record {
  tx = "room";
  host = "host";
  guest = "C-guest";
  token = "token";
  host_ready = host_ready;
  guest_ready = guest_ready;
  recovering = recovering;
  deadline = 130;
  host_hdl = host_hdl;
  guest_hdl = guest_hdl;
}

abbrev with_ticket : Ticket → Recovery ℕ
with_ticket t = record {
  manager = connected;
  db = 0;
  tickets = (("room", "C-guest"), t) ∷ [];
  legacy = [];
  capable = [];
  sent = [];
}

abbrev acknowledgement : Object
acknowledgement =
    ("type", string "session_resumed")
    ∷ ("transmission_id", string "room")
    ∷ ("guest_id", string "C-guest")
    ∷ []

abbrev resumed : Recovery ℕ
resumed = record (with_ticket (ticket true true false 1 2)) {
  manager = record connected {
    hosts = ("room", "host") ∷ [];
    guests = ("room", "C-guest" ∷ []) ∷ [];
    grants = ("room", ("C-guest", 2) ∷ []) ∷ [];
    delivered = remote_control "room" "host" "C-guest" true ∷ [];
  };
  sent = (1, acknowledgement) ∷ (2, acknowledgement) ∷ [];
}

host_reported : report (at 110) restarted 1 alive ≡ ok (with_ticket (ticket true false true 1 0))
unfolding report report_fields report_ticket report_alive as_boolean reported store_ticket resume
    both_ready with_room joined acknowledged start_session restart read_tickets read_legacy find
    set_ordered get_user_id bind_guest_connection bind_host_to_transmission
    bind_guest_to_transmission is_transmission_exist is_host_of_transmission
    get_all_user_id_of_transmission is_temporary_controller_id same_connection contains
    set_remote_control_session_callback
host_reported = refl

guest_reported : report (at 110) (with_ticket (ticket true false true 1 0)) 2 alive ≡ ok resumed
unfolding report report_fields report_ticket report_alive as_boolean reported store_ticket resume
    both_ready with_room joined acknowledged start_session restart read_tickets read_legacy find
    set_ordered get_user_id bind_guest_connection bind_host_to_transmission
    bind_guest_to_transmission is_transmission_exist is_host_of_transmission
    get_all_user_id_of_transmission is_temporary_controller_id same_connection contains
    set_remote_control_session_callback
guest_reported = refl

report-Resumed_example :
    (resumed.sent ≡ [])
    ⊎ Resumed (at 110) (with_ticket (ticket true false true 1 0)) 2 alive resumed
report-Resumed_example =
    report-Resumed (at 110) (with_ticket (ticket true false true 1 0)) 2 alive resumed
      guest_reported

-- The deadline has passed.
expired : expire (at 131) restarted ≡ ok (record restarted { tickets = [] })
unfolding expire expire_tickets expire_ticket expire_legacy is_stale end_session remove restart
    read_tickets read_legacy find set_ordered erase revise release_guest_from_transmission
    set_remote_control_session_callback
expired = refl

expire-deadline_example : LeavesInTime (at 131) restarted (record restarted { tickets = [] })
expire-deadline_example =
    expire-deadline (at 131) restarted (record restarted { tickets = [] })
      (restart-IsKept 100 30 connected 0 rows [] connected-IsSound).tickets
      (restart-IsKept 100 30 connected 0 rows [] connected-IsSound).legacy expired

-- A session without a ticket, from before the tickets.
abbrev legacy_rows : List Row
legacy_rows = (record { tx = "old"; host = "desk"; guest = "C-old"; token = "" }) ∷ []

-- The server's start: the rooms are restored, with the guest that has no ticket, then the callback
-- is set. The two ends of the ticket log in and report, and its deadline passes.
abbrev requests : List (RecoveryEnvironment ℕ × Request)
requests =
    (at 100, other (call (bind_host "desk" "old")))
    ∷ (at 100, other (call (bind_guest "C-old" "old")))
    ∷ (at 100, other (call (bind_host "host" "room")))
    ∷ (at 100, other (call (remote_callback true)))
    ∷ (at 105, other (call (bind_user "host" 1 "" 105)))
    ∷ (at 106, other (call (bind_user "C-guest" 2 "" 106)))
    ∷ (at 110, on_report 1 alive)
    ∷ (at 110, on_report 2 alive)
    ∷ (at 131, on_expire)
    ∷ []

abbrev after : Recovery ℕ
after = record resumed {
  manager = record resumed.manager {
    hosts = ("old", "desk") ∷ ("room", "host") ∷ [];
    last_active = (1, 105) ∷ (2, 106) ∷ [];
    delivered =
        remote_control "room" "host" "C-guest" true
        ∷ remote_control "old" "desk" "C-old" false
        ∷ [];
  };
}

served : serve_all (restart 100 30 new_manager 0 rows legacy_rows) requests ≡ ok after
unfolding report report_fields report_ticket report_alive as_boolean reported store_ticket resume
    both_ready with_room joined acknowledged start_session restart read_tickets read_legacy find
    set_ordered get_user_id bind_guest_connection bind_host_to_transmission
    bind_guest_to_transmission is_transmission_exist is_host_of_transmission
    get_all_user_id_of_transmission is_temporary_controller_id same_connection contains remove
    remove_value set_remote_control_session_callback serve_all serve expire expire_tickets
    expire_ticket expire_legacy expire_legacy_ticket forget_legacy end_session
    release_guest_from_transmission get_host_id_of_transmission is_stale erase revise handle perform
    bind_user_to_ws_handle update_last_active_time
served = refl

restart-run-IsKept_example : IsKept after
restart-run-IsKept_example =
    restart-run-IsKept 100 30 new_manager 0 rows legacy_rows requests after new_manager-IsSound
      (refl, (refl, (refl, (refl, (refl, (refl, (refl, (refl, (refl, tt))))))))) served
