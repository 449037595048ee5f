-- ===== src/SessionRecovery/Reports.antt =====
-- `Report`: the two ends of a session confirm that they still have it, or one gives it up.
pub mod Resuming
use crossdesk_server.Common.{
  ℕ, ◌+◌, String, Bool, true, false, ◌&&◌, ◌||◌, not, Option, none, some, List, [], ◌∷◌, ◌++◌, ◌==◌,
  ltb, if◌then◌else◌, or_else, is_some, string_key, nat_key, pair_key, Assoc, find, set_ordered,
  erase, revise,
}
use crossdesk_server.Transmission.State.{Handle, Manager}
use crossdesk_server.Transmission.Rooms.{
  is_transmission_exist, bind_host_to_transmission, release_guest_from_transmission,
}
use crossdesk_server.Transmission.Connections.{get_user_id, get_ws_handle, bind_guest_connection}
use crossdesk_server.Negotiation.Json.{Value, string, integer, boolean, Object, as_text}
use crossdesk_server.SessionRecovery.State.{
  Result, ok, threw, ◌>>=◌, SessionKey, Ticket, session_of, Row, row_of, RecoveryEnvironment,
  Recovery, send,
}
use crossdesk_server.SessionRecovery.Tickets.{
  remove, both_connected, start_session, end_session, confirm_legacy,
}

module _ {D : Type 0} (env : RecoveryEnvironment D) where
  -- A change of the ticket that is kept under a key.
  unfoldable pub store_ticket : Recovery D → SessionKey → Ticket → Recovery D
  store_ticket s key ticket = record s { tickets = set_ordered key ticket s.tickets }

  pub resumed_message : Ticket → Object
  resumed_message ticket =
      ("type", string "session_resumed")
      ∷ ("transmission_id", string ticket.tx)
      ∷ ("guest_id", string ticket.guest)
      ∷ []

  unfoldable pub acknowledged : SessionKey → Ticket → Recovery D × Bool → Recovery D
  unfolding store_ticket resumed_message
  acknowledged key ticket (s, false) = s
  acknowledged key ticket (s, true) =
      send
        (send (store_ticket s key (record ticket { recovering = false })) ticket.host_hdl
          (resumed_message ticket))
        ticket.guest_hdl (resumed_message ticket)

  unfoldable pub joined : Recovery D → SessionKey → Ticket → Manager × Bool → Recovery D
  unfolding acknowledged start_session
  joined s key ticket (m, false) = record s { manager = m }
  joined s key ticket (m, true) =
      acknowledged key ticket (start_session env (record s { manager = m }) ticket)

  unfoldable pub with_room : Manager → Ticket → Manager
  with_room m ticket =
      if not (is_transmission_exist m ticket.tx)
      then (bind_host_to_transmission m ticket.host ticket.tx).0
      else m

  unfoldable pub both_ready : Manager → Ticket → Bool
  both_ready m ticket =
      ticket.host_ready
      && ticket.guest_ready
      && not (env.expired ticket.host_hdl)
      && not (env.expired ticket.guest_hdl)
      && get_user_id m ticket.host_hdl == ticket.host
      && get_user_id m ticket.guest_hdl == ticket.guest

  unfoldable pub resume : Recovery D → SessionKey → Ticket → Recovery D
  unfolding joined with_room both_ready
  resume s key ticket =
      if both_ready s.manager ticket
      then joined s key ticket (
          bind_guest_connection env.expired (with_room s.manager ticket) ticket.guest ticket.tx
            ticket.guest_hdl)
      else s

  -- The ticket after its host or its guest reported.
  unfoldable pub reported : Ticket → String → Handle → Ticket
  reported ticket user hdl =
      if user == ticket.host
      then record ticket { host_ready = true; host_hdl = hdl }
      else record ticket { guest_ready = true; guest_hdl = hdl }

  unfoldable pub report_alive :
      Recovery D → Handle → SessionKey → Ticket → Bool → Result (Recovery D)
  unfolding end_session remove resume store_ticket reported
  report_alive s hdl key ticket alive =
      if not alive
      then remove env (end_session env s ticket) key
      else let now = reported ticket (get_user_id s.manager hdl) hdl in
        ok (resume (store_ticket s key now) key now)

  unfoldable pub report_ticket :
      Recovery D → Handle → SessionKey → String → Bool → Option Ticket → Result (Recovery D)
  unfolding report_alive
  report_ticket s hdl key token alive none = ok s
  report_ticket s hdl key token alive (some ticket) =
      let user = get_user_id s.manager hdl in
      if not (token == ticket.token) || (not (user == ticket.host) && not (user == ticket.guest))
      then ok s
      else do
        exists ← env.store.exists s.db (row_of ticket)
        if not exists || (ticket.recovering && ltb ticket.deadline env.now)
            then ok s
            else report_alive s hdl key ticket alive

  unfoldable pub as_boolean : Option Value → Option Bool
  as_boolean (some (boolean b)) = some b
  as_boolean _ = none

  unfoldable pub report_fields :
      Recovery D
      → Handle
      → Option String
      → Option String
      → Option String
      → Option Bool
      → Result (Recovery D)
  unfolding report_ticket
  report_fields s hdl (some tx) (some guest) (some token) (some alive) =
      report_ticket s hdl (tx, guest) token alive (find (tx, guest) s.tickets)
  report_fields s hdl _ _ _ _ = ok s

  unfoldable pub report : Recovery D → Handle → Object → Result (Recovery D)
  unfolding report_fields as_boolean
  report s hdl message =
      report_fields s hdl (as_text (find "transmission_id" message))
        (as_text (find "guest_id" message)) (as_text (find "token" message))
        (as_boolean (find "alive" message))
