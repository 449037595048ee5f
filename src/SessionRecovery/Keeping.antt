-- ===== src/SessionRecovery/Keeping.antt =====
-- Any calls, with any time between them, keep the tickets in their places and the rooms sound.
pub mod Runs
use crossdesk_server.Common.{
  ℕ, String, ◌≡◌, ◌∙◌, refl, sym, ap, subst, Bool, true, false, ◌&&◌, ◌||◌, not, Option, none, some,
  List, [], ◌∷◌, ◌==◌, ltb, if◌then◌else◌, is_some, string_key, nat_key, pair_key, Assoc, find,
  set_ordered, find-set_ordered, erase, revise, Bool-cases, inl, inr, arith,
}
use crossdesk_server.Transmission.State.{Handle, Manager}
use crossdesk_server.Transmission.Rooms.{
  is_transmission_exist, bind_host_to_transmission, release_guest_from_transmission,
}
use crossdesk_server.Transmission.Soundness.{IsSound, bind_host-IsSound, release_guest-IsSound}
use crossdesk_server.Transmission.Connections.{get_user_id, get_ws_handle, bind_guest_connection}
use crossdesk_server.Transmission.Soundness.{bind_guest_connection-IsSound}
use crossdesk_server.Negotiation.Json.{Object, as_text}
use crossdesk_server.SessionRecovery.State.{
  Result, ok, threw, ◌>>=◌, Ensures, Ensures-after, Ensures-weaken, Ensures->>=, if-Ensures,
  SessionKey, Ticket, session_of, Row, row_of, RecoveryEnvironment, Recovery,
}
use crossdesk_server.SessionRecovery.Tickets.{
  restart, remove, both_connected, start_session, end_session, confirm_legacy, login_loop, login,
  issue_ticket, both_capable, issue,
}
use crossdesk_server.SessionRecovery.Reports.{
  store_ticket, acknowledged, joined, with_room, both_ready, resume, reported, report_alive,
  report_ticket, report_fields, report,
}
use crossdesk_server.SessionRecovery.Expiry.{
  expire_ticket, expire_tickets, forget_legacy, expire_legacy_ticket, expire_legacy, live_handle,
  expire,
}
use crossdesk_server.SessionRecovery.Expiry.Deadline.{AreKeyed, AreFewer, Shrinks, erase-AreFewer}

pub record IsKept {D : Type 0} (s : Recovery D) : Type 0 where
  pub sound : IsSound s.manager
  pub tickets : AreKeyed s.tickets
  pub legacy : AreKeyed s.legacy

pub fewer-AreKeyed : (m n : Assoc SessionKey Ticket) → AreFewer m n → AreKeyed m → AreKeyed n
unfolding AreFewer AreKeyed
fewer-AreKeyed m n f k key ticket h = k key ticket (f key ticket h)

pub set-AreKeyed :
    (m : Assoc SessionKey Ticket) (own : SessionKey) (x : Ticket)
    → session_of x ≡ own
    → AreKeyed m
    → AreKeyed (set_ordered own x m)
unfolding AreKeyed
set-AreKeyed m own x o k key ticket h = elim (Bool-cases (own == key)) [
  | inl e ↦
      let equal : x ≡ ticket = found (rw (find-set_ordered own key x m, e) at h) in
      subst (λ v. session_of v ≡ key) equal (o ∙ (pair_key.beq_iff own key).0 e)
  | inr e ↦ k key ticket (rw (find-set_ordered own key x m, e) at h)
]
  where
    found : some x ≡ some ticket → x ≡ ticket
    found q = cc

pub erase-AreKeyed :
    (key : SessionKey) (m : Assoc SessionKey Ticket) → AreKeyed m → AreKeyed (erase key m)
erase-AreKeyed key m k = fewer-AreKeyed m (erase key m) (erase-AreFewer key m) k

module _ {D : Type 0} (env : RecoveryEnvironment D) where
  pub remove-IsKept :
      (s : Recovery D) (key : SessionKey) → IsKept s → Ensures IsKept (remove env s key)
  unfolding remove
  remove-IsKept s key v = Ensures-after IsKept (env.store.remove s.db key) _ (λ db h. record {
    sound = v.sound;
    tickets = erase-AreKeyed key s.tickets v.tickets;
    legacy = erase-AreKeyed key s.legacy v.legacy;
  })

  pub end-IsKept : (s : Recovery D) (ticket : Ticket) → IsKept s → IsKept (end_session env s ticket)
  unfolding end_session
  end-IsKept s ticket v = record {
    sound = release_guest-IsSound s.manager ticket.guest ticket.tx v.sound;
    tickets = v.tickets;
    legacy = v.legacy;
  }

  pub start-IsKept :
      (s : Recovery D) (ticket : Ticket) → IsKept s → IsKept (start_session env s ticket).0
  unfolding start_session
  start-IsKept s ticket v = record { sound = v.sound; tickets = v.tickets; legacy = v.legacy }

  pub confirm-IsKept :
      (s : Recovery D) (ticket : Ticket)
      → IsKept s
      → Ensures (λ r. IsKept r.0) (confirm_legacy env s ticket)
  unfolding confirm_legacy
  confirm-IsKept s ticket v =
      if-Ensures (λ r. IsKept r.0) (ltb ticket.deadline env.now) _ _ (λ e. v)
        (λ e.
          Ensures-after (λ r. IsKept r.0) (env.store.exists s.db (row_of ticket)) _
            (λ exists h. confirmed (exists && both_connected env s.manager ticket)))
    where
      confirmed : (b : Bool) → IsKept (if b then start_session env s ticket else (s, false)).0
      confirmed true = start-IsKept s ticket v
      confirmed false = v

  login_loop-IsKept :
      (es : Assoc SessionKey Ticket) (s : Recovery D) (user : String)
      → IsKept s
      → Ensures IsKept (login_loop env s user es)
  unfolding login_loop
  login_loop-IsKept [] s user v = v
  login_loop-IsKept ((key, ticket) ∷ es) s user v =
      Ensures->>= (λ r. IsKept r.0) IsKept _ _
        (if-Ensures (λ r. IsKept r.0) (user == ticket.host || user == ticket.guest)
          (confirm_legacy env s ticket) (ok (s, false)) (λ e. confirm-IsKept s ticket v) (λ e. v))
        (λ r w. login_loop-IsKept es _ user (dropped r w))
    where
      dropped :
          (r : Recovery D × Bool)
          → IsKept r.0
          → IsKept (if r.1 then record r.0 { legacy = erase key r.0.legacy } else r.0)
      dropped (t, true) w = record {
        sound = w.sound;
        tickets = w.tickets;
        legacy = erase-AreKeyed key t.legacy w.legacy;
      }
      dropped (t, false) w = w

  pub login-IsKept :
      (s : Recovery D) (hdl : Handle) (request : Object)
      → IsKept s
      → Ensures IsKept (login env s hdl request)
  unfolding login
  login-IsKept s hdl request v =
      login_loop-IsKept s.legacy _ (get_user_id s.manager hdl)
        (record { sound = v.sound; tickets = v.tickets; legacy = v.legacy })
