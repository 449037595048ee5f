-- ===== src/SessionRecovery/Tickets.antt =====
-- What the class reads when it starts, `Login` and `Issue`, and what they share with the other
-- operations.
use crossdesk_server.Common.{
  ℕ, ◌+◌, String, Bool, true, false, ◌&&◌, ◌||◌, not, Option, none, some, List, [], ◌∷◌, ◌==◌, ltb,
  if◌then◌else◌, or_else, is_some, string_key, nat_key, pair_key, Assoc, find, set_ordered, erase,
}
use crossdesk_server.Transmission.State.{Handle, Manager}
use crossdesk_server.Transmission.Rooms.{release_guest_from_transmission}
use crossdesk_server.Transmission.Connections.{get_user_id, get_ws_handle}
use crossdesk_server.Negotiation.Json.{Value, string, Object}
use crossdesk_server.SessionRecovery.State.{
  Result, ok, threw, ◌>>=◌, SessionKey, Ticket, Row, row_of, RecoveryEnvironment, Recovery, send,
}

-- What the constructor reads: the tickets of the table, and the sessions without one.
unfoldable pub read_tickets : ℕ → List Row → Assoc SessionKey Ticket → Assoc SessionKey Ticket
read_tickets deadline [] tickets = tickets
read_tickets deadline (r ∷ rows) tickets = read_tickets deadline rows (
    set_ordered (r.tx, r.guest)
      (record {
        tx = r.tx;
        host = r.host;
        guest = r.guest;
        token = r.token;
        host_ready = false;
        guest_ready = false;
        recovering = true;
        deadline = deadline;
        host_hdl = 0;
        guest_hdl = 0;
      })
      tickets)

unfoldable pub read_legacy : ℕ → List Row → Assoc SessionKey Ticket → Assoc SessionKey Ticket
read_legacy deadline [] legacy = legacy
read_legacy deadline (r ∷ rows) legacy = read_legacy deadline rows (
    set_ordered (r.tx, r.guest)
      (record {
        tx = r.tx;
        host = r.host;
        guest = r.guest;
        token = "";
        host_ready = false;
        guest_ready = false;
        recovering = false;
        deadline = deadline;
        host_hdl = 0;
        guest_hdl = 0;
      })
      legacy)

unfoldable pub restart : {D : Type 0} → ℕ → ℕ → Manager → D → List Row → List Row → Recovery D
unfolding read_tickets read_legacy
restart now timeout manager db rows legacy_rows = record {
  manager = manager;
  db = db;
  tickets = read_tickets (now + timeout) rows [];
  legacy = read_legacy (now + timeout) legacy_rows [];
  capable = [];
  sent = [];
}

pub manages : {D : Type 0} → Recovery D → String → String → Bool
manages s tx guest = is_some (find (tx, guest) s.tickets)

is_waiting : Option Ticket → Bool
is_waiting none = false
is_waiting (some ticket) = ticket.recovering

pub is_recovering : {D : Type 0} → Recovery D → String → String → Bool
unfolding is_waiting
is_recovering s tx guest =
    is_some (find (tx, guest) s.legacy) || is_waiting (find (tx, guest) s.tickets)

-- capable_[hdl], which enters `false` for a new connection
capability : Handle → Assoc Handle Bool → Assoc Handle Bool × Bool
capability hdl capable =
    if is_some (find hdl capable)
    then (capable, or_else (find hdl capable) false)
    else (set_ordered hdl false capable, false)

module _ {D : Type 0} (env : RecoveryEnvironment D) where
  unfoldable pub remove : Recovery D → SessionKey → Result (Recovery D)
  remove s key = do
    db ← env.store.remove s.db key
    ok (record s { db = db; tickets = erase key s.tickets; legacy = erase key s.legacy })

  -- Whether both identities of a legacy session are connected.
  pub both_connected : Manager → Ticket → Bool
  both_connected m ticket =
      let host_hdl = get_ws_handle m ticket.host in
      let guest_hdl = get_ws_handle m ticket.guest in
      not (env.expired host_hdl)
      && not (env.expired guest_hdl)
      && get_user_id m host_hdl == ticket.host
      && get_user_id m guest_hdl == ticket.guest

  unfoldable pub start_session : Recovery D → Ticket → Recovery D × Bool
  start_session s ticket =
      let r = env.store.start_remote_control_session s.db ticket.tx ticket.host ticket.guest in
      (record s { db = r.0 }, r.1)

  -- A session that is given up.
  unfoldable pub end_session : Recovery D → Ticket → Recovery D
  end_session s ticket = record s {
    manager = (release_guest_from_transmission s.manager ticket.guest ticket.tx).0;
    db = (env.store.end_remote_control_session s.db ticket.tx ticket.host ticket.guest).0;
  }

  unfoldable pub confirm_legacy : Recovery D → Ticket → Result (Recovery D × Bool)
  unfolding both_connected start_session
  confirm_legacy s ticket = if ltb ticket.deadline env.now then ok (s, false) else do
    exists ← env.store.exists s.db (row_of ticket)
    ok (if exists && both_connected s.manager ticket then start_session s ticket else (s, false))

  -- The loop of `Login` over the legacy sessions.
  unfoldable pub login_loop : Recovery D → String → Assoc SessionKey Ticket → Result (Recovery D)
  unfolding confirm_legacy
  login_loop s user [] = ok s
  login_loop s user ((key, ticket) ∷ rest) = do
    r ←
        if user == ticket.host || user == ticket.guest
        then confirm_legacy s ticket
        else ok (s, false)
    login_loop (if r.1 then record r.0 { legacy = erase key r.0.legacy } else r.0) user rest

  resume_version : Option Value → Bool
  resume_version none = false
  resume_version (some version) = env.is_one version

  unfoldable pub login : Recovery D → Handle → Object → Result (Recovery D)
  unfolding login_loop resume_version
  login s hdl request =
      login_loop
        (record s {
          capable =
              set_ordered hdl (resume_version (find "session_resume_version" request)) s.capable;
        })
        (get_user_id s.manager hdl) s.legacy

  pub with_token : Option String → Result String
  with_token none = threw
  with_token (some token) = ok token

  unfoldable pub issue_ticket :
      Recovery D → String → String → String → Handle → Handle → Result (Recovery D)
  unfolding with_token
  issue_ticket s tx host guest host_hdl guest_hdl = do
    token ← with_token env.token
    db ← env.store.save s.db (record { tx = tx; host = host; guest = guest; token = token })
    let message =
        ("type", string "session_ticket")
        ∷ ("transmission_id", string tx)
        ∷ ("host_id", string host)
        ∷ ("guest_id", string guest)
        ∷ ("token", string token)
        ∷ []
    let ticket : Ticket = record {
      tx = tx;
      host = host;
      guest = guest;
      token = token;
      host_ready = false;
      guest_ready = false;
      recovering = false;
      deadline = 0;
      host_hdl = host_hdl;
      guest_hdl = guest_hdl;
    }
    ok (
        send
          (send (record s { db = db; tickets = set_ordered (tx, guest) ticket s.tickets }) host_hdl
            message)
          guest_hdl message)

  -- Both connections report the state of their sessions.
  pub both_capable : Assoc Handle Bool → Handle → Handle → Assoc Handle Bool × Bool
  unfolding capability
  both_capable capable host_hdl guest_hdl =
      let host = capability host_hdl capable in
      if host.1 then capability guest_hdl host.0 else (host.0, false)

  unfoldable pub issue : Recovery D → String → String → String → Handle → Result (Recovery D)
  unfolding issue_ticket remove both_capable
  issue s tx host guest guest_hdl =
      let host_hdl = get_ws_handle s.manager host in
      let r = both_capable s.capable host_hdl guest_hdl in
      let t = record s { legacy = erase (tx, guest) s.legacy; capable = r.0 } in
      if not r.1
      then (if is_some (find (tx, guest) t.tickets) then remove t (tx, guest) else ok t)
      else issue_ticket t tx host guest host_hdl guest_hdl
