-- ===== src/SessionRecovery/Expiry/Deadline.antt =====
-- What `Expire` leaves.
use crossdesk_server.Common.{
  ◌≡◌, ◌≤◌, refl, sym, subst, Bool, true, false, ◌&&◌, not, Option, none, some, [], ◌∷◌, ◌==◌, ltb,
  if◌then◌else◌, string_key, nat_key, pair_key, Assoc, find, erase, find-erase, revise, Bool-cases,
  inl, inr, ==_refl, arith,
}
use crossdesk_server.SessionRecovery.State.{
  ok, Ensures, Ensures-after, Ensures-weaken, Ensures->>=, if-Ensures, ok-Ensures, SessionKey,
  Ticket, session_of, row_of, RecoveryEnvironment, Recovery,
}
use crossdesk_server.SessionRecovery.Tickets.{
  remove, end_session, confirm_legacy, start_session, both_connected,
}
use crossdesk_server.SessionRecovery.Expiry.{
  is_stale, expire_ticket, expire_tickets, forget_legacy, expire_legacy_ticket, expire_legacy,
  live_handle, expire,
}

-- Each ticket is kept under its own session.
unfoldable pub AreKeyed : Assoc SessionKey Ticket → Type 0
AreKeyed m =
    (key : SessionKey) (ticket : Ticket) → find key m ≡ some ticket → session_of ticket ≡ key

-- No ticket of the second map is new.
unfoldable pub AreFewer : Assoc SessionKey Ticket → Assoc SessionKey Ticket → Type 0
AreFewer m n =
    (key : SessionKey) (ticket : Ticket) → find key n ≡ some ticket → find key m ≡ some ticket

AreFewer-trans : (m n o : Assoc SessionKey Ticket) → AreFewer m n → AreFewer n o → AreFewer m o
unfolding AreFewer
AreFewer-trans m n o f g key ticket h = f key ticket (g key ticket h)

pub erase-AreFewer : (k : SessionKey) (m : Assoc SessionKey Ticket) → AreFewer m (erase k m)
unfolding AreFewer
erase-AreFewer k m key ticket h = elim (Bool-cases (k == key)) [
  | inl e ↦ absurd (gone (rw (find-erase k key m, e) at h))
  | inr e ↦ rw (find-erase k key m, e) at h
]
  where
    gone : none ≡ some ticket → ⊥
    gone q = cc

-- Nothing was added to the tickets or to the legacy sessions.
pub record Shrinks {D : Type 0} (s t : Recovery D) : Type 0 where
  pub tickets : AreFewer s.tickets t.tickets
  pub legacy : AreFewer s.legacy t.legacy

pub Shrinks-refl : {D : Type 0} (s : Recovery D) → Shrinks s s
unfolding AreFewer
Shrinks-refl s = record { tickets = λ key ticket h. h; legacy = λ key ticket h. h }

pub Shrinks-trans : {D : Type 0} (s t u : Recovery D) → Shrinks s t → Shrinks t u → Shrinks s u
Shrinks-trans s t u a b = record {
  tickets = AreFewer-trans s.tickets t.tickets u.tickets a.tickets b.tickets;
  legacy = AreFewer-trans s.legacy t.legacy u.legacy a.legacy b.legacy;
}

module _ {D : Type 0} (env : RecoveryEnvironment D) where
  -- A recovering ticket that is kept is in time.
  abbrev InTime : Ticket → Type 0
  InTime ticket = ticket.recovering ≡ true → env.now ≤ ticket.deadline

  remove-Shrinks :
      (s : Recovery D) (key : SessionKey)
      → Ensures
          (λ t. Shrinks s t × ((find key t.tickets ≡ none) × (t.legacy ≡ erase key s.legacy)))
          (remove env s key)
  unfolding remove
  remove-Shrinks s key = Ensures-after _ (env.store.remove s.db key) _ (λ db h. (
    record { tickets = erase-AreFewer key s.tickets; legacy = erase-AreFewer key s.legacy },
    (rw (find-erase key key s.tickets, ==_refl key) refl, refl),
  ))

  -- What the loop leaves of a ticket that it saw.
  abbrev Seen : SessionKey → Ticket → Recovery D → Type 0
  Seen key ticket t = find key t.tickets ≡ some ticket → InTime ticket

  ended-Shrinks :
      (s : Recovery D) (ticket : Ticket) (recovering : Bool)
      → Shrinks s (if recovering then end_session env s ticket else s)
  unfolding end_session
  ended-Shrinks s ticket true = record {
    tickets = (Shrinks-refl s).tickets;
    legacy = (Shrinks-refl s).legacy;
  }
  ended-Shrinks s ticket false = Shrinks-refl s

  ticket-Shrinks :
      (s : Recovery D) (ticket : Ticket)
      → Ensures (λ t. Shrinks s t × Seen (session_of ticket) ticket t) (expire_ticket env s ticket)
  unfolding expire_ticket end_session is_stale
  ticket-Shrinks s ticket = Ensures-after _ (env.store.exists s.db (row_of ticket)) _ (λ exists h.
      elim (Bool-cases (is_stale env ticket exists)) [
        | inr e ↦ rw e (Shrinks-refl s, λ f y. ground (arith, e, y))
        | inl e ↦
            let u = if ticket.recovering then end_session env s ticket else s in
            rw e (
              Ensures-weaken _ _ (remove env u (session_of ticket))
                (λ t p. (
                  Shrinks-trans s u t (ended-Shrinks s ticket ticket.recovering) p.0,
                  λ f y. absurd (gone _ t.tickets p.1.0 f),
                ))
                (remove-Shrinks u (session_of ticket)))
      ])
    where
      gone :
          (key : SessionKey) (m : Assoc SessionKey Ticket)
          → find key m ≡ none
          → find key m ≡ some ticket
          → ⊥
      gone key m f g = cc

  -- What the loop leaves of the tickets that it goes over.
  abbrev AllSeen : Assoc SessionKey Ticket → Recovery D → Type 0
  AllSeen es t =
      (key : SessionKey) (ticket : Ticket)
      → find key es ≡ some ticket
      → session_of ticket ≡ key
      → Seen key ticket t

  tickets-Shrinks :
      (es : Assoc SessionKey Ticket) (s : Recovery D)
      → Ensures (λ t. Shrinks s t × AllSeen es t) (expire_tickets env s es)
  unfolding expire_tickets find AreFewer
  tickets-Shrinks [] s = (Shrinks-refl s, λ key ticket h k f y. absurd (cc))
  tickets-Shrinks ((k, x) ∷ es) s =
      Ensures->>= (λ t. Shrinks s t × Seen (session_of x) x t) _ (expire_ticket env s x) _
        (ticket-Shrinks s x)
        (λ t p.
          Ensures-weaken _ _ (expire_tickets env t es)
            (λ u q. (
              Shrinks-trans s t u p.0 q.0,
              λ key ticket h own f y. elim (Bool-cases (k == key)) [
                | inl e ↦
                    let equal : x ≡ ticket = found (rw e at h) in
                    let seen : Seen (session_of ticket) ticket t =
                      subst (λ v. Seen (session_of v) v t) equal p.1 in
                    seen
                      (subst (λ i. find i t.tickets ≡ some ticket) (sym own)
                        (q.0.tickets key ticket f))
                      y
                | inr e ↦ q.1 key ticket (rw e at h) own f y
              ],
            ))
            (tickets-Shrinks es t))
    where
      found : {ticket : Ticket} → some x ≡ some ticket → x ≡ ticket
      found q = cc

  forget-Shrinks : (s : Recovery D) (ticket : Ticket) → Shrinks s (forget_legacy env s ticket)
  unfolding forget_legacy AreFewer
  forget-Shrinks s ticket = record {
    tickets = λ key x h. h;
    legacy = erase-AreFewer (session_of ticket) s.legacy;
  }

  forgotten :
      (s : Recovery D) (ticket : Ticket)
      → find (session_of ticket) (forget_legacy env s ticket).legacy ≡ none
  unfolding forget_legacy
  forgotten s ticket =
      rw (find-erase (session_of ticket) (session_of ticket) s.legacy, ==_refl (session_of ticket))
        refl

  confirm-Shrinks :
      (s : Recovery D) (ticket : Ticket)
      → Ensures (λ r. Shrinks s r.0) (confirm_legacy env s ticket)
  unfolding confirm_legacy start_session
  confirm-Shrinks s ticket = elim (Bool-cases (ltb ticket.deadline env.now)) [
    | inl e ↦ rw e (Shrinks-refl s)
    | inr e ↦ rw e (
        Ensures-after _ (env.store.exists s.db (row_of ticket)) _ (λ exists h.
          elim (Bool-cases (exists && both_connected env s.manager ticket)) [
            | inl f ↦
                rw f
                  (record { tickets = (Shrinks-refl s).tickets; legacy = (Shrinks-refl s).legacy })
            | inr f ↦ rw f (Shrinks-refl s)
          ]))
  ]

  abbrev SeenLegacy : SessionKey → Ticket → Recovery D → Type 0
  SeenLegacy key ticket t = find key t.legacy ≡ some ticket → env.now ≤ ticket.deadline

  gone_legacy :
      (s : Recovery D) (ticket : Ticket)
      → SeenLegacy (session_of ticket) ticket (forget_legacy env s ticket)
  gone_legacy s ticket f = absurd (none_some (forgotten s ticket) f)
    where
      none_some : {o : Option Ticket} → o ≡ none → o ≡ some ticket → ⊥
      none_some p q = cc

  abbrev IsSettled : Recovery D → Ticket → Recovery D → Type 0
  IsSettled s ticket t = Shrinks s t × SeenLegacy (session_of ticket) ticket t

  legacy_ticket-Shrinks :
      (s : Recovery D) (ticket : Ticket)
      → Ensures (IsSettled s ticket) (expire_legacy_ticket env s ticket)
  unfolding expire_legacy_ticket
  legacy_ticket-Shrinks s ticket =
      let P = IsSettled s ticket in
      let u = end_session env s ticket in
      Ensures-after P (env.store.exists s.db (row_of ticket)) _ (λ exists h.
        if-Ensures P (not exists) _ _ (λ e. (forget-Shrinks s ticket, gone_legacy s ticket))
          (λ e.
            if-Ensures P (ltb ticket.deadline env.now) _ _
              (λ f. (
                Shrinks-trans s u _ (ended-Shrinks s ticket true) (forget-Shrinks u ticket),
                gone_legacy u ticket,
              ))
              (λ f.
                Ensures->>= (λ r. Shrinks s r.0) P (confirm_legacy env s ticket) _
                  (confirm-Shrinks s ticket) (λ r p. confirmed r f p))))
    where
      confirmed :
          (r : Recovery D × Bool)
          → ltb ticket.deadline env.now ≡ false
          → Shrinks s r.0
          → IsSettled s ticket (if r.1 then forget_legacy env r.0 ticket else r.0)
      confirmed (u, true) f p =
          (Shrinks-trans s u _ p (forget-Shrinks u ticket), gone_legacy u ticket)
      confirmed (u, false) f p = (p, λ q. ground (arith, f))

  abbrev AllSeenLegacy : Assoc SessionKey Ticket → Recovery D → Type 0
  AllSeenLegacy es t =
      (key : SessionKey) (ticket : Ticket)
      → find key es ≡ some ticket
      → session_of ticket ≡ key
      → SeenLegacy key ticket t

  legacy-Shrinks :
      (es : Assoc SessionKey Ticket) (s : Recovery D)
      → Ensures (λ t. Shrinks s t × AllSeenLegacy es t) (expire_legacy env s es)
  unfolding expire_legacy find AreFewer
  legacy-Shrinks [] s = (Shrinks-refl s, λ key ticket h k f. absurd (cc))
  legacy-Shrinks ((k, x) ∷ es) s =
      Ensures->>= (λ t. Shrinks s t × SeenLegacy (session_of x) x t) _
        (expire_legacy_ticket env s x) _ (legacy_ticket-Shrinks s x)
        (λ t p.
          Ensures-weaken _ _ (expire_legacy env t es)
            (λ u q. (
              Shrinks-trans s t u p.0 q.0,
              λ key ticket h own f. elim (Bool-cases (k == key)) [
                | inl e ↦
                    let equal : x ≡ ticket = found (rw e at h) in
                    let seen : SeenLegacy (session_of ticket) ticket t =
                      subst (λ v. SeenLegacy (session_of v) v t) equal p.1 in
                    seen (
                      subst (λ i. find i t.legacy ≡ some ticket) (sym own)
                        (q.0.legacy key ticket f))
                | inr e ↦ q.1 key ticket (rw e at h) own f
              ],
            ))
            (legacy-Shrinks es t))
    where
      found : {ticket : Ticket} → some x ≡ some ticket → x ≡ ticket
      found q = cc

  -- What is left, and that it is in time.
  abbrev pub LeavesInTime : Recovery D → Recovery D → Type 0
  LeavesInTime s t =
      Shrinks s t
      × (((key : SessionKey) (ticket : Ticket)
            → find key t.tickets ≡ some ticket
            → ticket.recovering ≡ true
            → env.now ≤ ticket.deadline)
          × ((key : SessionKey) (ticket : Ticket)
              → find key t.legacy ≡ some ticket
              → env.now ≤ ticket.deadline))

  -- After `Expire`, where each ticket stood under its own session, every recovering ticket that is
  -- left is in time, and so is every legacy session. No ticket and no legacy session is new.
  pub expire-deadline :
      (s t : Recovery D)
      → AreKeyed s.tickets
      → AreKeyed s.legacy
      → expire env s ≡ ok t
      → LeavesInTime s t
  unfolding expire AreKeyed AreFewer
  expire-deadline s t keyed keyed_legacy h =
      let v = record s { capable = revise (live_handle env) s.capable } in
      ok-Ensures (LeavesInTime s) (expire env s) t h (
        Ensures->>= (λ u. Shrinks v u × AllSeen s.tickets u) (LeavesInTime s)
          (expire_tickets env v s.tickets) _ (tickets-Shrinks s.tickets v)
          (λ u p.
            Ensures-weaken (λ w. Shrinks u w × AllSeenLegacy u.legacy w) (LeavesInTime s)
              (expire_legacy env u u.legacy)
              (λ w q. (
                Shrinks-trans s u w (record { tickets = p.0.tickets; legacy = p.0.legacy }) q.0,
                (
                  λ key ticket f y.
                      let g = q.0.tickets key ticket f in
                      let known = p.0.tickets key ticket g in
                      p.1 key ticket known (keyed key ticket known) g y,
                  λ key ticket f.
                      let g = q.0.legacy key ticket f in
                      q.1 key ticket g (keyed_legacy key ticket (p.0.legacy key ticket g)) f,
                ),
              ))
              (legacy-Shrinks u.legacy u)))
