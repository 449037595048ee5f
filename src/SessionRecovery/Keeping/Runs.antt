-- ===== src/SessionRecovery/Keeping/Runs.antt =====
-- The calls of SessionRecovery, in any order, between other calls of TransmissionManager.
use crossdesk_server.Common.{
  ℕ, ◌+◌, String, ◌≡◌, ◌∙◌, refl, Bool, true, false, ◌&&◌, ◌||◌, not, Option, none, some, List, [],
  ◌∷◌, ◌==◌, ltb, if◌then◌else◌, is_some, string_key, nat_key, pair_key, Assoc, find, erase,
  Bool-cases, inl, inr,
}
use crossdesk_server.Transmission.State.{Handle, Manager}
use crossdesk_server.Transmission.Rooms.{is_transmission_exist}
use crossdesk_server.Transmission.Soundness.{IsSound, bind_host-IsSound}
use crossdesk_server.Transmission.Connections.{get_user_id, get_ws_handle, bind_guest_connection}
use crossdesk_server.Transmission.Soundness.{bind_guest_connection-IsSound}
use crossdesk_server.Transmission.Calls.{Event, handle, handle-IsSound}
use crossdesk_server.Negotiation.Json.{Object, as_text}
use crossdesk_server.SessionRecovery.State.{
  Result, ok, ◌>>=◌, Ensures, Ensures-after, Ensures->>=, if-Ensures, ok-Ensures, SessionKey,
  Ticket, session_of, Row, row_of, RecoveryEnvironment, Recovery,
}
use crossdesk_server.SessionRecovery.Tickets.{
  read_tickets, read_legacy, restart, start_session, end_session, confirm_legacy, login, with_token,
  issue_ticket, both_capable, issue,
}
use crossdesk_server.SessionRecovery.Reports.{
  store_ticket, acknowledged, joined, with_room, both_ready, resume, reported, report_alive,
  report_ticket, as_boolean, report_fields, report,
}
use crossdesk_server.SessionRecovery.Expiry.{
  is_stale, expire_ticket, expire_tickets, forget_legacy, expire_legacy_ticket, expire_legacy,
  expire,
}
use crossdesk_server.SessionRecovery.Expiry.Deadline.{AreKeyed}
use crossdesk_server.SessionRecovery.Keeping.{
  IsKept, set-AreKeyed, erase-AreKeyed, remove-IsKept, end-IsKept, start-IsKept, confirm-IsKept,
  login-IsKept,
}

module _ {D : Type 0} (env : RecoveryEnvironment D) where
  issue-IsKept :
      (s : Recovery D) (tx host guest : String) (hdl : Handle)
      → IsKept s
      → Ensures IsKept (issue env s tx host guest hdl)
  unfolding issue issue_ticket
  issue-IsKept s tx host guest hdl v =
      let host_hdl = get_ws_handle s.manager host in
      let r = both_capable env s.capable host_hdl hdl in
      let t = record s { legacy = erase (tx, guest) s.legacy; capable = r.0 } in
      let kept : IsKept t = record {
        sound = v.sound;
        tickets = v.tickets;
        legacy = erase-AreKeyed (tx, guest) s.legacy v.legacy;
      } in
      if-Ensures IsKept (not r.1) _ _
        (λ e.
          if-Ensures IsKept (is_some (find (tx, guest) t.tickets)) _ _
            (λ f. remove-IsKept env t (tx, guest) kept) (λ f. kept))
        (λ e. Ensures-after IsKept (with_token env env.token) _ (λ token f.
          Ensures-after IsKept (env.store.save t.db _) _ (λ db g. record {
            sound = v.sound;
            tickets = set-AreKeyed s.tickets (tx, guest) _ refl v.tickets;
            legacy = kept.legacy;
          })))

  store-IsKept :
      (s : Recovery D) (key : SessionKey) (ticket : Ticket)
      → session_of ticket ≡ key
      → IsKept s
      → IsKept (store_ticket env s key ticket)
  unfolding store_ticket
  store-IsKept s key ticket o v = record {
    sound = v.sound;
    tickets = set-AreKeyed s.tickets key ticket o v.tickets;
    legacy = v.legacy;
  }

  with_room-IsSound : (m : Manager) (ticket : Ticket) → IsSound m → IsSound (with_room env m ticket)
  unfolding with_room
  with_room-IsSound m ticket v =
      choose (not (is_transmission_exist m ticket.tx)) (bind_host-IsSound m ticket.host ticket.tx v)
        v
    where
      choose : {a b : Manager} (c : Bool) → IsSound a → IsSound b → IsSound (if c then a else b)
      choose true x y = x
      choose false x y = y

  acknowledged-IsKept :
      (key : SessionKey) (ticket : Ticket) (r : Recovery D × Bool)
      → session_of ticket ≡ key
      → IsKept r.0
      → IsKept (acknowledged env key ticket r)
  unfolding acknowledged
  acknowledged-IsKept key ticket (s, false) o v = v
  acknowledged-IsKept key ticket (s, true) o v =
      let w = store-IsKept s key (record ticket { recovering = false }) o v in
      record { sound = w.sound; tickets = w.tickets; legacy = w.legacy }

  joined-IsKept :
      (s : Recovery D) (key : SessionKey) (ticket : Ticket) (r : Manager × Bool)
      → IsSound r.0
      → session_of ticket ≡ key
      → IsKept s
      → IsKept (joined env s key ticket r)
  unfolding joined
  joined-IsKept s key ticket (m, false) w o v = record {
    sound = w;
    tickets = v.tickets;
    legacy = v.legacy;
  }
  joined-IsKept s key ticket (m, true) w o v =
      let t = record s { manager = m } in
      acknowledged-IsKept key ticket (start_session env t ticket) o
        (start-IsKept env t ticket (record { sound = w; tickets = v.tickets; legacy = v.legacy }))

  resume-IsKept :
      (s : Recovery D) (key : SessionKey) (ticket : Ticket)
      → session_of ticket ≡ key
      → IsKept s
      → IsKept (resume env s key ticket)
  unfolding resume
  resume-IsKept s key ticket o v =
      choose (both_ready env s.manager ticket)
        (joined-IsKept s key ticket
          (bind_guest_connection env.expired (with_room env s.manager ticket) ticket.guest ticket.tx
            ticket.guest_hdl)
          (bind_guest_connection-IsSound env.expired (with_room env s.manager ticket) ticket.guest
            ticket.tx ticket.guest_hdl (with_room-IsSound s.manager ticket v.sound))
          o v)
        v
    where
      choose : {a b : Recovery D} (c : Bool) → IsKept a → IsKept b → IsKept (if c then a else b)
      choose true x y = x
      choose false x y = y

  session-reported :
      (ticket : Ticket) (user : String) (hdl : Handle)
      → session_of (reported env ticket user hdl) ≡ session_of ticket
  unfolding reported
  session-reported ticket user hdl = elim (Bool-cases (user == ticket.host)) [
    | inl e ↦ rw e refl
    | inr e ↦ rw e refl
  ]

  report_ticket-IsKept :
      (s : Recovery D) (hdl : Handle) (key : SessionKey) (token : String) (alive : Bool)
      (o : Option Ticket)
      → find key s.tickets ≡ o
      → IsKept s
      → Ensures IsKept (report_ticket env s hdl key token alive o)
  unfolding report_ticket report_alive is_stale AreKeyed
  report_ticket-IsKept s hdl key token alive none k v = v
  report_ticket-IsKept s hdl key token alive (some ticket) k v =
      let now = reported env ticket (get_user_id s.manager hdl) hdl in
      let own : session_of now ≡ key =
        session-reported ticket (get_user_id s.manager hdl) hdl ∙ v.tickets key ticket k in
      let user = get_user_id s.manager hdl in
      if-Ensures (IsKept {D = D})
        (not (token == ticket.token) || (not (user == ticket.host) && not (user == ticket.guest)))
        (ok s) _ (λ e. v)
        (λ e. Ensures-after IsKept (env.store.exists s.db (row_of ticket)) _ (λ exists h.
          if-Ensures IsKept (is_stale env ticket exists) (ok s)
            (report_alive env s hdl key ticket alive) (λ f. v)
            (λ f.
              if-Ensures IsKept (not alive) _ _
                (λ g. remove-IsKept env (end_session env s ticket) key (end-IsKept env s ticket v))
                (λ g.
                  resume-IsKept (store_ticket env s key now) key now own
                    (store-IsKept s key now own v)))))

  report-IsKept :
      (s : Recovery D) (hdl : Handle) (message : Object)
      → IsKept s
      → Ensures IsKept (report env s hdl message)
  unfolding report report_fields
  report-IsKept s hdl message v =
      fields (as_text (find "transmission_id" message)) (as_text (find "guest_id" message))
        (as_text (find "token" message)) (as_boolean env (find "alive" message))
    where
      fields :
          (tx guest token : Option String) (alive : Option Bool)
          → Ensures IsKept (report_fields env s hdl tx guest token alive)
      fields (some tx) (some guest) (some token) (some alive) =
          report_ticket-IsKept s hdl (tx, guest) token alive (find (tx, guest) s.tickets) refl v
      fields none guest token alive = v
      fields (some tx) none token alive = v
      fields (some tx) (some guest) none alive = v
      fields (some tx) (some guest) (some token) none = v

  expire_tickets-IsKept :
      (es : Assoc SessionKey Ticket) (s : Recovery D)
      → IsKept s
      → Ensures IsKept (expire_tickets env s es)
  unfolding expire_tickets expire_ticket
  expire_tickets-IsKept [] s v = v
  expire_tickets-IsKept ((key, ticket) ∷ es) s v =
      Ensures->>= IsKept IsKept (expire_ticket env s ticket) _
        (Ensures-after IsKept (env.store.exists s.db (row_of ticket)) _ (λ exists h.
          if-Ensures IsKept (is_stale env ticket exists) _ _
            (λ e. remove-IsKept env _ (session_of ticket) (ended ticket.recovering)) (λ e. v)))
        (λ t w. expire_tickets-IsKept es t w)
    where
      ended : (b : Bool) → IsKept (if b then end_session env s ticket else s)
      ended true = end-IsKept env s ticket v
      ended false = v

  forget-IsKept :
      (s : Recovery D) (ticket : Ticket) → IsKept s → IsKept (forget_legacy env s ticket)
  unfolding forget_legacy
  forget-IsKept s ticket v = record {
    sound = v.sound;
    tickets = v.tickets;
    legacy = erase-AreKeyed (session_of ticket) s.legacy v.legacy;
  }

  expire_legacy-IsKept :
      (es : Assoc SessionKey Ticket) (s : Recovery D)
      → IsKept s
      → Ensures IsKept (expire_legacy env s es)
  unfolding expire_legacy expire_legacy_ticket
  expire_legacy-IsKept [] s v = v
  expire_legacy-IsKept ((key, ticket) ∷ es) s v =
      Ensures->>= IsKept IsKept (expire_legacy_ticket env s ticket) _
        (Ensures-after IsKept (env.store.exists s.db (row_of ticket)) _ (λ exists h.
          if-Ensures IsKept (not exists) _ _ (λ e. forget-IsKept s ticket v)
            (λ e.
              if-Ensures IsKept (ltb ticket.deadline env.now) _ _
                (λ f. forget-IsKept (end_session env s ticket) ticket (end-IsKept env s ticket v))
                (λ f.
                  Ensures->>= (λ r. IsKept r.0) IsKept (confirm_legacy env s ticket) _
                    (confirm-IsKept env s ticket v) (λ r w. confirmed r w)))))
        (λ t w. expire_legacy-IsKept es t w)
    where
      confirmed :
          (r : Recovery D × Bool)
          → IsKept r.0
          → IsKept (if r.1 then forget_legacy env r.0 ticket else r.0)
      confirmed (u, true) w = forget-IsKept u ticket w
      confirmed (u, false) w = w

  expire-IsKept : (s : Recovery D) → IsKept s → Ensures IsKept (expire env s)
  unfolding expire
  expire-IsKept s v =
      Ensures->>= IsKept IsKept _ _
        (expire_tickets-IsKept s.tickets _
          (record { sound = v.sound; tickets = v.tickets; legacy = v.legacy }))
        (λ t w. expire_legacy-IsKept t.legacy t w)

read_tickets-AreKeyed :
    (deadline : ℕ) (rows : List Row) (m : Assoc SessionKey Ticket)
    → AreKeyed m
    → AreKeyed (read_tickets deadline rows m)
unfolding read_tickets
read_tickets-AreKeyed deadline [] m k = k
read_tickets-AreKeyed deadline (r ∷ rows) m k =
    read_tickets-AreKeyed deadline rows _ (set-AreKeyed m _ _ refl k)

read_legacy-AreKeyed :
    (deadline : ℕ) (rows : List Row) (m : Assoc SessionKey Ticket)
    → AreKeyed m
    → AreKeyed (read_legacy deadline rows m)
unfolding read_legacy
read_legacy-AreKeyed deadline [] m k = k
read_legacy-AreKeyed deadline (r ∷ rows) m k =
    read_legacy-AreKeyed deadline rows _ (set-AreKeyed m _ _ refl k)

pub restart-IsKept :
    {D : Type 0} (now timeout : ℕ) (m : Manager) (db : D) (rows legacy_rows : List Row)
    → IsSound m
    → IsKept (restart now timeout m db rows legacy_rows)
unfolding restart AreKeyed find
restart-IsKept now timeout m db rows legacy_rows v = record {
  sound = v;
  tickets = read_tickets-AreKeyed (now + timeout) rows [] (λ key ticket h. absurd (cc));
  legacy = read_legacy-AreKeyed (now + timeout) legacy_rows [] (λ key ticket h. absurd (cc));
}

-- A call of the class; `other` is what the rest of the server does to the rooms and the connections.
pub data Request : Type 0 where
  on_login on_report : Handle → Object → Request
  on_issue : String → String → String → Handle → Request
  on_expire : Request
  other : Event → Request

unfoldable pub serve :
    {D : Type 0} → RecoveryEnvironment D → Recovery D → Request → Result (Recovery D)
serve env s (on_login hdl message) = login env s hdl message
serve env s (on_report hdl message) = report env s hdl message
serve env s (on_issue tx host guest hdl) = issue env s tx host guest hdl
serve env s on_expire = expire env s
serve env s (other e) = ok (record s { manager = handle env.expired s.manager e })

unfoldable pub serve_all :
    {D : Type 0} → Recovery D → List (RecoveryEnvironment D × Request) → Result (Recovery D)
unfolding serve
serve_all s [] = ok s
serve_all s ((env, request) ∷ requests) = do t ← serve env s request; serve_all t requests

-- In every call the empty handle has expired.
abbrev pub EmptyExpires : {D : Type 0} → List (RecoveryEnvironment D × Request) → Type 0
EmptyExpires [] = Unit {0}
EmptyExpires ((env, request) ∷ requests) = (env.expired 0 ≡ true) × EmptyExpires requests

serve-IsKept :
    {D : Type 0} (env : RecoveryEnvironment D) (s : Recovery D) (request : Request)
    → env.expired 0 ≡ true
    → IsKept s
    → Ensures IsKept (serve env s request)
unfolding serve
serve-IsKept env s (on_login hdl message) x v = login-IsKept env s hdl message v
serve-IsKept env s (on_report hdl message) x v = report-IsKept env s hdl message v
serve-IsKept env s (on_issue tx host guest hdl) x v = issue-IsKept env s tx host guest hdl v
serve-IsKept env s on_expire x v = expire-IsKept env s v
serve-IsKept env s (other e) x v = record {
  sound = handle-IsSound env.expired s.manager e x v.sound;
  tickets = v.tickets;
  legacy = v.legacy;
}

run-IsKept :
    {D : Type 0} (requests : List (RecoveryEnvironment D × Request)) (s : Recovery D)
    → EmptyExpires requests
    → IsKept s
    → Ensures IsKept (serve_all s requests)
unfolding serve_all
run-IsKept [] s x v = v
run-IsKept ((env, request) ∷ requests) s x v =
    Ensures->>= IsKept IsKept (serve env s request) _ (serve-IsKept env s request x.0 v)
      (λ t w. run-IsKept requests t x.1 w)

-- After a start with any rows of the database and sound rooms, and any calls with other operations
-- on the rooms and connections between them, where the empty handle has always expired: if none
-- threw, the rooms and connections are sound, and each ticket and each legacy session stands under
-- its own transmission and guest.
pub restart-run-IsKept :
    {D : Type 0} (now timeout : ℕ) (m : Manager) (db : D) (rows legacy_rows : List Row)
    (requests : List (RecoveryEnvironment D × Request)) (t : Recovery D)
    → IsSound m
    → EmptyExpires requests
    → serve_all (restart now timeout m db rows legacy_rows) requests ≡ ok t
    → IsKept t
restart-run-IsKept now timeout m db rows legacy_rows requests t v x h = ok-Ensures IsKept _ t h (
    run-IsKept requests (restart now timeout m db rows legacy_rows) x
      (restart-IsKept now timeout m db rows legacy_rows v))
