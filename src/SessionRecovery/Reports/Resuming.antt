-- ===== src/SessionRecovery/Reports/Resuming.antt =====
-- When `Report` restores a session.
use crossdesk_server.Common.{
  String, ◌≡◌, ◌⊎◌, ◌≤◌, refl, sym, ap, subst, Bool, true, false, ◌&&◌, ◌||◌, not, Option, none,
  some, List, ◌==◌, ltb, string_key, nat_key, pair_key, find, Bool-cases, inl, inr, arith,
}
use crossdesk_server.Transmission.State.{Handle, Manager}
use crossdesk_server.Transmission.Connections.{get_user_id, bind_guest_connection}
use crossdesk_server.Negotiation.Json.{Object, as_text}
use crossdesk_server.SessionRecovery.State.{
  ok, Ensures, Ensures-after, ok-Ensures, SessionKey, Ticket, row_of, RecoveryEnvironment, Recovery,
}
use crossdesk_server.SessionRecovery.Tickets.{start_session, end_session}
use crossdesk_server.SessionRecovery.Reports.{
  store_ticket, acknowledged, joined, with_room, both_ready, resume, reported, report_alive,
  report_ticket, as_boolean, report_fields, report,
}

-- A session was restored, after a report of one of its ends.
pub record Resumed {D : Type 0} (env : RecoveryEnvironment D) (s : Recovery D) (hdl : Handle)
    (message : Object) (t : Recovery D) : Type 0 where
  pub ticket : Ticket
  pub key : SessionKey
  pub asked : as_text (find "transmission_id" message) ≡ some key.0
  pub asked_guest : as_text (find "guest_id" message) ≡ some key.1
  pub known : find key s.tickets ≡ some ticket
  pub proved : as_text (find "token" message) ≡ some ticket.token
  pub own :
      (get_user_id s.manager hdl == ticket.host || get_user_id s.manager hdl == ticket.guest) ≡ true
  pub recorded : env.store.exists s.db (row_of ticket) ≡ ok true
  pub in_time : ticket.recovering ≡ true → env.now ≤ ticket.deadline
  pub ready : both_ready env s.manager (reported env ticket (get_user_id s.manager hdl) hdl) ≡ true
  pub bound :
      let now = reported env ticket (get_user_id s.manager hdl) hdl in
      bind_guest_connection env.expired (with_room env s.manager now) now.guest now.tx now.guest_hdl
      ≡ (t.manager, true)

module _ {D : Type 0} (env : RecoveryEnvironment D) where
  -- Nothing was sent, or the guest was bound.
  abbrev IsBound : List (Handle × Object) → Manager × Bool → Recovery D → Type 0
  IsBound sent r t = (t.sent ≡ sent) ⊎ (r ≡ (t.manager, true))

  acknowledged-manager :
      (key : SessionKey) (ticket : Ticket) (u : Recovery D × Bool)
      → u.0.manager ≡ (acknowledged env key ticket u).manager
  unfolding acknowledged store_ticket
  acknowledged-manager key ticket (s, false) = refl
  acknowledged-manager key ticket (s, true) = refl

  joined-IsBound :
      (s : Recovery D) (key : SessionKey) (ticket : Ticket) (r : Manager × Bool)
      → IsBound s.sent r (joined env s key ticket r)
  unfolding joined start_session
  joined-IsBound s key ticket (m, false) = inl refl
  joined-IsBound s key ticket (m, true) = inr (
      ap (λ (n : Manager). (n, true))
        (acknowledged-manager key ticket (start_session env (record s { manager = m }) ticket)))

  resume-IsBound :
      (s : Recovery D) (key : SessionKey) (ticket : Ticket)
      → let t = resume env s key ticket in
        (t.sent ≡ s.sent)
        ⊎ ((both_ready env s.manager ticket ≡ true)
            × (bind_guest_connection env.expired
                  (with_room env s.manager ticket)
                  ticket.guest
                  ticket.tx
                  ticket.guest_hdl
                ≡ (t.manager, true)))
  unfolding resume
  resume-IsBound s key ticket = elim (Bool-cases (both_ready env s.manager ticket)) [
    | inr e ↦ inl (rw e refl)
    | inl e ↦
        rw e
          (elim (joined-IsBound s key ticket (
            bind_guest_connection env.expired (with_room env s.manager ticket) ticket.guest
              ticket.tx ticket.guest_hdl)) [ inl f ↦ inl f | inr f ↦ inr (refl, f) ])
  ]

  -- What is known of a report that goes through.
  record IsOwn (s : Recovery D) (hdl : Handle) (key : SessionKey) (token : String) (ticket : Ticket)
      : Type 0 where
    pub known : find key s.tickets ≡ some ticket
    pub proved : token ≡ ticket.token
    pub own :
        (get_user_id s.manager hdl == ticket.host || get_user_id s.manager hdl == ticket.guest)
        ≡ true
    pub recorded : env.store.exists s.db (row_of ticket) ≡ ok true
    pub in_time : ticket.recovering ≡ true → env.now ≤ ticket.deadline

  abbrev IsReported : Recovery D → Handle → SessionKey → String → Recovery D → Type 0
  IsReported s hdl key token t =
      (t.sent ≡ s.sent)
      ⊎ ((ticket : Ticket) × (IsOwn s hdl key token ticket
            × (let now = reported env ticket (get_user_id s.manager hdl) hdl in
                (both_ready env s.manager now ≡ true)
                × (bind_guest_connection env.expired (with_room env s.manager now) now.guest now.tx
                      now.guest_hdl
                    ≡ (t.manager, true)))))

  alive-IsReported :
      (s : Recovery D) (hdl : Handle) (key : SessionKey) (token : String) (ticket : Ticket)
      (alive : Bool)
      → IsOwn s hdl key token ticket
      → Ensures (IsReported s hdl key token) (report_alive env s hdl key ticket alive)
  unfolding report_alive store_ticket
  alive-IsReported s hdl key token ticket alive own = elim (Bool-cases alive) [
    | inr e ↦ rw e (
        Ensures-after (IsReported s hdl key token)
          (env.store.remove (end_session env s ticket).db key) _ (λ db h. inl refl))
    | inl e ↦ rw e (
        let now = reported env ticket (get_user_id s.manager hdl) hdl in
        elim (resume-IsBound (store_ticket env s key now) key now) [
          | inl f ↦ inl f
          | inr f ↦ inr (ticket, (own, f))
        ])
  ]

  ticket-IsReported :
      (s : Recovery D) (hdl : Handle) (key : SessionKey) (token : String) (alive : Bool)
      (o : Option Ticket)
      → find key s.tickets ≡ o
      → Ensures (IsReported s hdl key token) (report_ticket env s hdl key token alive o)
  unfolding report_ticket
  ticket-IsReported s hdl key token alive none e = inl refl
  ticket-IsReported s hdl key token alive (some ticket) e =
      let user = get_user_id s.manager hdl in
      elim (Bool-cases (
        not (token == ticket.token) || (not (user == ticket.host) && not (user == ticket.guest)))) [
          | inl f ↦ rw f (inl refl)
          | inr f ↦ rw f (
              Ensures-after (IsReported s hdl key token) (env.store.exists s.db (row_of ticket)) _
                (λ exists h.
                  elim (Bool-cases
                    (not exists || (ticket.recovering && ltb ticket.deadline env.now))) [
                      | inl g ↦ rw g (inl refl)
                      | inr g ↦ rw g (
                          alive-IsReported s hdl key token ticket alive (record {
                            known = e;
                            proved = ground (arith, f, string_key.beq_iff token ticket.token);
                            own = ground (arith, f);
                            recorded =
                                subst (λ b. env.store.exists s.db (row_of ticket) ≡ ok b)
                                  (ground (arith, g)) h;
                            in_time = λ y. ground (arith, g, y);
                          }))
                    ]))
        ]

  -- A report, if it does not throw, sends nothing, or it restores a session: the message names a
  -- ticket and carries its token, the connection has the id of one of the ticket's ends, the
  -- session is still recorded, the ticket is in time if it is recovering, both ends have reported
  -- on connections that are live and still have their ids, and the guest's connection was bound to
  -- the room.
  pub report-Resumed :
      (s : Recovery D) (hdl : Handle) (message : Object) (t : Recovery D)
      → report env s hdl message ≡ ok t
      → (t.sent ≡ s.sent) ⊎ Resumed env s hdl message t
  unfolding report report_fields
  report-Resumed s hdl message t h =
      fields (as_text (find "transmission_id" message)) (as_text (find "guest_id" message))
        (as_text (find "token" message)) (as_boolean env (find "alive" message)) refl refl refl h
    where
      unsent : ok s ≡ ok t → t.sent ≡ s.sent
      unsent q = let equal : s ≡ t = cc in ap (λ u. u.sent) (sym equal)

      fields :
          (tx guest token : Option String) (alive : Option Bool)
          → as_text (find "transmission_id" message) ≡ tx
          → as_text (find "guest_id" message) ≡ guest
          → as_text (find "token" message) ≡ token
          → report_fields env s hdl tx guest token alive ≡ ok t
          → (t.sent ≡ s.sent) ⊎ Resumed env s hdl message t
      fields (some tx) (some guest) (some token) (some alive) e f g k =
          elim (ok-Ensures (IsReported s hdl (tx, guest) token) _ t k
            (ticket-IsReported s hdl (tx, guest) token alive (find (tx, guest) s.tickets) refl)) [
              | inl q ↦ inl q
              | inr (ticket, (own, (ready, bound))) ↦ inr (record {
                ticket = ticket;
                key = (tx, guest);
                asked = e;
                asked_guest = f;
                known = own.known;
                proved = subst (λ x. as_text (find "token" message) ≡ some x) own.proved g;
                own = own.own;
                recorded = own.recorded;
                in_time = own.in_time;
                ready = ready;
                bound = bound;
              })
            ]
      fields none guest token alive e f g k = inl (unsent k)
      fields (some tx) none token alive e f g k = inl (unsent k)
      fields (some tx) (some guest) none alive e f g k = inl (unsent k)
      fields (some tx) (some guest) (some token) none e f g k = inl (unsent k)
