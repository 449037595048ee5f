-- ===== src/Negotiation/Signals/Relay.antt =====
-- Who can reach whom by `offer`, `answer`, `new_candidate` and `new_candidate_mid`.
use crossdesk_server.Common.{
  zero, suc, ◌<◌, String, ◌≡◌, ◌⊎◌, refl, sym, subst, ◌∙◌, Bool, true, false, ◌||◌, not, Option,
  none, some, ◌==◌, if◌then◌else◌, or_else, string_key, nat_key, find, Bool-cases, inl, inr, arith,
}
use crossdesk_server.Transmission.State.{Handle, Manager}
use crossdesk_server.Transmission.Rooms.{get_host_id_of_transmission}
use crossdesk_server.Transmission.Soundness.{IsSound}
use crossdesk_server.Transmission.Connections.{
  get_user_id, get_room_handle, is_connection_in_transmission,
}
use crossdesk_server.Transmission.Connections.Access.{
  HasAccess, in_transmission-HasAccess, get_room_handle-HasAccess,
}
use crossdesk_server.Negotiation.Json.{string, Object, get_string_field}
use crossdesk_server.Negotiation.State.{
  Environment, Negotiation, send, copy_optional_ice_ufrag, add_connection_ice_config,
}
use crossdesk_server.Negotiation.State.Additions.{
  LacksMember, find-copy_ufrag, find-connection_ice_config,
}
use crossdesk_server.Negotiation.Signals.{
  Peers, peers, is_authorized_peer_signal, authorized, offer, offer_fields, send_offer, answer,
  answer_fields, send_answer, new_candidate, candidate_fields, send_candidate, new_candidate_mid,
  candidate_mid_fields,
}

-- The sender's connection is live, speaks for the user that it names and has access to the room;
-- the destination is the live connection by which the other has access; and one of the two is the
-- room's host.
pub record IsEntitled {D R : Type 0} (env : Environment D R) (m : Manager) (hdl : Handle)
    (p : Peers) : Type 0 where
  pub live : env.expired hdl ≡ false
  pub speaks : find hdl m.users ≡ some p.user_id
  pub access : HasAccess m hdl p.transmission_id p.user_id
  pub reached : env.expired (get_room_handle m p.remote_user_id p.transmission_id) ≡ false
  pub remote :
      HasAccess m
        (get_room_handle m p.remote_user_id p.transmission_id)
        p.transmission_id
        p.remote_user_id
  pub distinct : (p.user_id == p.remote_user_id) ≡ false
  pub hosted :
      (find p.transmission_id m.hosts ≡ some p.user_id)
      ⊎ (find p.transmission_id m.hosts ≡ some p.remote_user_id)

module _ {D R : Type 0} (env : Environment D R) where
  -- What the test says, test by test.
  record Passed (m : Manager) (hdl : Handle) (p : Peers) : Type 0 where
    pub live : env.expired hdl ≡ false
    pub own : (get_user_id m hdl == p.user_id) ≡ true
    pub distinct : (p.user_id == p.remote_user_id) ≡ false
    pub hosted : (get_host_id_of_transmission m p.transmission_id == "") ≡ false
    pub peer :
        ((p.user_id == get_host_id_of_transmission m p.transmission_id)
          || (p.remote_user_id == get_host_id_of_transmission m p.transmission_id))
        ≡ true
    pub inside : is_connection_in_transmission env.expired m hdl p.transmission_id ≡ true
    pub reached : env.expired (get_room_handle m p.remote_user_id p.transmission_id) ≡ false

  authorized-Passed :
      (s : Negotiation D) (hdl : Handle) (p : Peers)
      → authorized env s hdl p ≡ true
      → Passed s.manager hdl p
  unfolding authorized is_authorized_peer_signal
  authorized-Passed s hdl p h = ground arith

  known_host :
      (m : Manager) (room : String)
      → (get_host_id_of_transmission m room == "") ≡ false
      → find room m.hosts ≡ some (get_host_id_of_transmission m room)
  unfolding get_host_id_of_transmission
  known_host m room h = by_case (find room m.hosts) h
    where
      by_case : (o : Option String) → (or_else o "" == "") ≡ false → o ≡ some (or_else o "")
      by_case none h = cc
      by_case (some host) h = refl

  hosted_by :
      (m : Manager) (room user : String)
      → (get_host_id_of_transmission m room == "") ≡ false
      → (user == get_host_id_of_transmission m room) ≡ true
      → find room m.hosts ≡ some user
  hosted_by m room user h e =
      subst (λ host. find room m.hosts ≡ some host)
        (sym ((string_key.beq_iff user (get_host_id_of_transmission m room)).0 e))
        (known_host m room h)

  live_handle : (h : Handle) → env.expired 0 ≡ true → env.expired h ≡ false → 0 < h
  live_handle zero empty live = absurd (cc)
  live_handle (suc h) empty live = omega arith

  Passed-IsEntitled :
      (m : Manager) (hdl : Handle) (p : Peers)
      → IsSound m
      → env.expired 0 ≡ true
      → Passed m hdl p
      → IsEntitled env m hdl p
  Passed-IsEntitled m hdl p v empty t =
      let (live, known, access) =
        in_transmission-HasAccess env.expired m hdl p.transmission_id v t.inside in
      let named : get_user_id m hdl ≡ p.user_id =
        (string_key.beq_iff (get_user_id m hdl) p.user_id).0 t.own in
      record {
        live = live;
        speaks = subst (λ u. find hdl m.users ≡ some u) named known;
        access = subst (λ u. HasAccess m hdl p.transmission_id u) named access;
        reached = t.reached;
        remote =
            get_room_handle-HasAccess m p.remote_user_id p.transmission_id v
              (live_handle (get_room_handle m p.remote_user_id p.transmission_id) empty t.reached);
        distinct = t.distinct;
        hosted = elim (Bool-cases (p.user_id == get_host_id_of_transmission m p.transmission_id)) [
          | inl e ↦ inl (hosted_by m p.transmission_id p.user_id t.hosted e)
          | inr e ↦ inr (hosted_by m p.transmission_id p.remote_user_id t.hosted (ground arith))
        ];
      }

module _ {D R : Type 0} (env : Environment D R) where
  pub authorized-IsEntitled :
      (s : Negotiation D) (hdl : Handle) (p : Peers)
      → IsSound s.manager
      → env.expired 0 ≡ true
      → authorized env s hdl p ≡ true
      → IsEntitled env s.manager hdl p
  authorized-IsEntitled s hdl p v empty h =
      Passed-IsEntitled env s.manager hdl p v empty (authorized-Passed env s hdl p h)

-- A handler's result: nothing happened, or it sent one message, to the connection by which the
-- room reaches the other peer, for a sender that is entitled to it; and the message says who sent
-- it and in which room.
pub data Relays {D R : Type 0} (env : Environment D R) (s : Negotiation D) (hdl : Handle)
    (t : Negotiation D) : Type 0 where
  silent : t ≡ s → Relays env s hdl t
  relayed :
      (p : Peers) (message : Object)
      → IsEntitled env s.manager hdl p
      → t ≡ send s (get_room_handle s.manager p.remote_user_id p.transmission_id) message
      → find "remote_user_id" message ≡ some (string p.user_id)
      → find "transmission_id" message ≡ some (string p.transmission_id)
      → Relays env s hdl t

pub data Handler : Type 0 where
  on_offer on_answer on_candidate on_candidate_mid : Handler

module _ {D R : Type 0} (env : Environment D R) where
  abbrev pub relay : Handler → Negotiation D → Handle → Object → Negotiation D × Bool
  relay on_offer s hdl j = offer env s hdl j
  relay on_answer s hdl j = answer env s hdl j
  relay on_candidate s hdl j = new_candidate env s hdl j
  relay on_candidate_mid s hdl j = new_candidate_mid env s hdl j

module _ {D R : Type 0} (env : Environment D R) (s : Negotiation D) (hdl : Handle) where
  send_offer-Relays :
      (p : Peers) (sdp : Option String)
      → LacksMember env "remote_user_id"
      → LacksMember env "transmission_id"
      → IsEntitled env s.manager hdl p
      → Relays env s hdl (send_offer env s p sdp)
  unfolding send_offer find
  send_offer-Relays p none l n e = silent refl
  send_offer-Relays p (some sdp) l n e =
      relayed p (add_connection_ice_config env _ p.remote_user_id) e refl
        (find-connection_ice_config env "remote_user_id" _ p.remote_user_id l refl)
        (find-connection_ice_config env "transmission_id" _ p.remote_user_id n refl)

  send_answer-Relays :
      (p : Peers) (sdp : Option String)
      → IsEntitled env s.manager hdl p
      → Relays env s hdl (send_answer env s p sdp)
  unfolding send_answer find
  send_answer-Relays p none e = silent refl
  send_answer-Relays p (some sdp) e = relayed p _ e refl refl refl

  send_candidate-Relays :
      (p : Peers) (j message : Object)
      → find "remote_user_id" message ≡ some (string p.user_id)
      → find "transmission_id" message ≡ some (string p.transmission_id)
      → IsEntitled env s.manager hdl p
      → Relays env s hdl (send_candidate env s p (copy_optional_ice_ufrag j message)).0
  unfolding send_candidate
  send_candidate-Relays p j message a b e = by_case (copy_optional_ice_ufrag j message) refl
    where
      by_case :
          (o : Option Object)
          → copy_optional_ice_ufrag j message ≡ o
          → Relays env s hdl (send_candidate env s p o).0
      by_case none q = silent refl
      by_case (some m) q =
          relayed p m e refl (find-copy_ufrag "remote_user_id" j message m refl q ∙ a)
            (find-copy_ufrag "transmission_id" j message m refl q ∙ b)

  module _ (v : IsSound s.manager) (empty : env.expired 0 ≡ true)
      (l : LacksMember env "remote_user_id") (n : LacksMember env "transmission_id") where
    guarded :
        (p : Peers) (r : Negotiation D × Bool)
        → (IsEntitled env s.manager hdl p → Relays env s hdl r.0)
        → Relays env s hdl (if not (authorized env s hdl p) then (s, false) else r).0
    guarded p r after = elim (Bool-cases (authorized env s hdl p)) [
      | inl e ↦ rw e (after (authorized-IsEntitled env s hdl p v empty e))
      | inr e ↦ rw e (silent refl)
    ]

    offer-Relays : (j : Object) (o : Option Peers) → Relays env s hdl (offer_fields env s hdl j o).0
    unfolding offer_fields
    offer-Relays j none = silent refl
    offer-Relays j (some p) = guarded p _ (send_offer-Relays p (get_string_field j "sdp") l n)

    answer-Relays :
        (j : Object) (o : Option Peers) → Relays env s hdl (answer_fields env s hdl j o).0
    unfolding answer_fields
    answer-Relays j none = silent refl
    answer-Relays j (some p) = guarded p _ (send_answer-Relays p (get_string_field j "sdp"))

    candidate-Relays :
        (j : Object) (o : Option (Peers × String))
        → Relays env s hdl (candidate_fields env s hdl j o).0
    unfolding candidate_fields find
    candidate-Relays j none = silent refl
    candidate-Relays j (some (p, candidate)) = guarded p _ (send_candidate-Relays p j _ refl refl)

    candidate_mid-Relays :
        (j : Object) (o : Option (Peers × (String × String)))
        → Relays env s hdl (candidate_mid_fields env s hdl j o).0
    unfolding candidate_mid_fields find
    candidate_mid-Relays j none = silent refl
    candidate_mid-Relays j (some (p, (candidate, mid))) =
        guarded p _ (send_candidate-Relays p j _ refl refl)

-- In a sound state, with the empty handle expired and an ICE configuration that has neither of the
-- members that name the room and the sender, whatever the request: each of the four handlers does
-- nothing, or sends exactly one message, from an entitled connection to the peer that it may
-- reach; and that message names the sender's own user and the room.
pub relay-Relays :
    {D R : Type 0} (env : Environment D R) (handler : Handler) (s : Negotiation D) (hdl : Handle)
    (j : Object)
    → IsSound s.manager
    → env.expired 0 ≡ true
    → LacksMember env "remote_user_id"
    → LacksMember env "transmission_id"
    → Relays env s hdl (relay env handler s hdl j).0
unfolding offer answer new_candidate new_candidate_mid
relay-Relays env on_offer s hdl j v e l n = offer-Relays env s hdl v e l n j (peers j)
relay-Relays env on_answer s hdl j v e l n = answer-Relays env s hdl v e l n j (peers j)
relay-Relays env on_candidate s hdl j v e l n = candidate-Relays env s hdl v e l n j _
relay-Relays env on_candidate_mid s hdl j v e l n = candidate_mid-Relays env s hdl v e l n j _
