-- ===== src/SessionRecovery/Expiry.antt =====
-- `Expire` and `Status`.
pub mod Deadline
use crossdesk_server.Common.{
  ℕ, ◌+◌, String, Bool, true, false, ◌&&◌, ◌||◌, not, Option, none, some, List, [], ◌∷◌, ◌++◌, ◌==◌,
  ltb, if◌then◌else◌, or_else, is_some, string_key, nat_key, pair_key, Assoc, find, set_ordered,
  erase, revise,
}
use crossdesk_server.Transmission.State.{Handle, Manager}
use crossdesk_server.Transmission.Rooms.{
  is_transmission_exist, bind_host_to_transmission, release_guest_from_transmission,
}
use crossdesk_server.Transmission.Connections.{get_user_id, get_ws_handle, bind_guest_connection}
use crossdesk_server.Negotiation.Json.{Value, string, integer, boolean, Object, as_text}
use crossdesk_server.SessionRecovery.State.{
  Result, ok, threw, ◌>>=◌, SessionKey, Ticket, session_of, Row, row_of, RecoveryEnvironment,
  Recovery, send,
}
use crossdesk_server.SessionRecovery.Tickets.{
  remove, both_connected, start_session, end_session, confirm_legacy,
}

module _ {D : Type 0} (env : RecoveryEnvironment D) where
  -- Whether `Expire` removes a ticket.
  unfoldable pub is_stale : Ticket → Bool → Bool
  is_stale ticket exists = not exists || (ticket.recovering && ltb ticket.deadline env.now)

  unfoldable pub expire_ticket : Recovery D → Ticket → Result (Recovery D)
  unfolding end_session remove is_stale
  expire_ticket s ticket = do
    exists ← env.store.exists s.db (row_of ticket)
    if is_stale ticket exists
        then remove env (if ticket.recovering then end_session env s ticket else s)
            (session_of ticket)
        else ok s

  unfoldable pub expire_tickets : Recovery D → Assoc SessionKey Ticket → Result (Recovery D)
  unfolding expire_ticket
  expire_tickets s [] = ok s
  expire_tickets s ((key, ticket) ∷ rest) = do t ← expire_ticket s ticket; expire_tickets t rest

  unfoldable pub forget_legacy : Recovery D → Ticket → Recovery D
  forget_legacy s ticket = record s { legacy = erase (session_of ticket) s.legacy }

  unfoldable pub expire_legacy_ticket : Recovery D → Ticket → Result (Recovery D)
  unfolding end_session confirm_legacy forget_legacy
  expire_legacy_ticket s ticket = do
    exists ← env.store.exists s.db (row_of ticket)
    if not exists
        then ok (forget_legacy s ticket)
        else if ltb ticket.deadline env.now
        then ok (forget_legacy (end_session env s ticket) ticket)
        else do r ← confirm_legacy env s ticket; ok (if r.1 then forget_legacy r.0 ticket else r.0)

  unfoldable pub expire_legacy : Recovery D → Assoc SessionKey Ticket → Result (Recovery D)
  unfolding expire_legacy_ticket
  expire_legacy s [] = ok s
  expire_legacy s ((key, ticket) ∷ rest) = do
    t ← expire_legacy_ticket s ticket
    expire_legacy t rest

  pub live_handle : Handle → Bool → Option Bool
  live_handle hdl flag = if env.expired hdl then none else some flag

  unfoldable pub expire : Recovery D → Result (Recovery D)
  unfolding live_handle expire_tickets expire_legacy
  expire s = do
    t ← expire_tickets (record s { capable = revise live_handle s.capable }) s.tickets
    expire_legacy t t.legacy

  is_recoverable : Ticket → Bool
  is_recoverable ticket =
      ticket.host_ready
      && ticket.guest_ready
      && not (env.expired ticket.host_hdl)
      && not (env.expired ticket.guest_hdl)

  -- The numbers of recoverable and of recovering tickets.
  count_tickets : D → Assoc SessionKey Ticket → ℕ × ℕ → Result (ℕ × ℕ)
  unfolding is_recoverable
  count_tickets db [] counts = ok counts
  count_tickets db ((key, ticket) ∷ rest) (recoverable, recovering) = do
    exists ← env.store.exists db (row_of ticket)
    count_tickets db rest (
      recoverable + (if exists && not ticket.recovering && is_recoverable ticket then 1 else 0),
      recovering + (if exists && ticket.recovering then 1 else 0),
    )

  count_legacy : D → Assoc SessionKey Ticket → ℕ → Result ℕ
  count_legacy db [] recovering = ok recovering
  count_legacy db ((key, ticket) ∷ rest) recovering = do
    exists ← env.store.exists db (row_of ticket)
    count_legacy db rest (recovering + (if exists then 1 else 0))

  pub status : Recovery D → Result Object
  unfolding count_tickets count_legacy
  status s = do
    counts ← count_tickets s.db s.tickets (0, 0)
    recovering ← count_legacy s.db s.legacy counts.1
    total ← env.store.count s.db
    ok (
        ("total", integer total)
        ∷ ("recoverable", integer counts.0)
        ∷ ("recovering", integer recovering)
        ∷ [])
