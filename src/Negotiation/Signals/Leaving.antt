-- ===== src/Negotiation/Signals/Leaving.antt =====
-- How peers leave a room, and how a host disconnects a guest.
use crossdesk_server.Common.{
  String, ◌≡◌, refl, subst, ◌∙◌, true, false, ◌||◌, not, Option, none, some, List, [], ◌∷◌, ◌++◌,
  map, ◌==◌, contains, string_key, nat_key, find, Bool-cases, inl, inr, arith,
}
use mathlib.Core.List.{append_assoc, append-nil}
use crossdesk_server.Transmission.State.{Handle, Manager}
use crossdesk_server.Transmission.Rooms.{
  is_host_of_transmission, get_all_user_id_of_transmission, release_guest_from_transmission,
}
use crossdesk_server.Transmission.Rooms.Gone.{
  release_transmission-empty, release_guest-absent, release_guest-hosts,
}
use crossdesk_server.Transmission.Soundness.{IsSound}
use crossdesk_server.Transmission.Connections.{
  get_user_id, get_room_handle, is_connection_in_transmission,
}
use crossdesk_server.Transmission.Connections.Access.{HasAccess, in_transmission-HasAccess}
use crossdesk_server.Negotiation.Json.{Object}
use crossdesk_server.Negotiation.State.{Environment, Negotiation, send}
use crossdesk_server.Negotiation.Signals.{
  Peers, peers, authorized, destination, recipients, send_all, leave_message, leave_fields_of,
  left_room, leave_room, leave_named, leave_transmission, disconnect_named, disconnect_peer,
}
use crossdesk_server.Negotiation.Signals.Relay.{IsEntitled, authorized-IsEntitled}

contains-recipients :
    {D R : Type 0} (env : Environment D R) (m : Manager) (room user id : String) (ids : List String)
    → contains ids id ≡ true
    → (id == user) ≡ false
    → env.expired (get_room_handle m id room) ≡ false
    → contains (recipients env m room user ids) (get_room_handle m id room) ≡ true
unfolding recipients contains
contains-recipients env m room user id [] c o l = ground arith
contains-recipients env m room user id (first ∷ rest) c o l = elim (Bool-cases (first == id)) [
  | inl q ↦
      rw ((string_key.beq_iff first id).0 q, o, l)
        (ground (arith, nat_key.beq_iff (get_room_handle m id room) (get_room_handle m id room)))
  | inr q ↦ ground (arith, contains-recipients env m room user id rest)
]

send_all_lem :
    {D : Type 0} (s : Negotiation D) (message : Object) (told : List Handle)
    → send_all s message told ≡ record s { sent = s.sent ++ map (λ h. (h, message)) told }
unfolding send_all
send_all_lem s message [] = rw (append-nil s.sent) refl
send_all_lem s message (hdl ∷ rest) =
    send_all_lem (send s hdl message) message rest
    ∙ rw (append_assoc s.sent ((hdl, message) ∷ []) (map (λ h. (h, message)) rest)) refl

-- The room that a user has left, and the messages about it.
pub record HasLeft {D R : Type 0} (env : Environment D R) (s t : Negotiation D) (room user : String)
    : Type 0 where
  pub told : List Handle
  pub sent : t.sent ≡ s.sent ++ map (λ h. (h, leave_message room user)) told
  pub everyone :
      (id : String)
      → contains (get_all_user_id_of_transmission s.manager room) id ≡ true
      → (id == user) ≡ false
      → env.expired (get_room_handle s.manager id room) ≡ false
      → contains told (get_room_handle s.manager id room) ≡ true
  pub gone : contains (get_all_user_id_of_transmission t.manager room) user ≡ false

module _ {D R : Type 0} (env : Environment D R) where
  left_room-gone :
      (m : Manager) (room user : String)
      → contains (get_all_user_id_of_transmission (left_room env m room user).0 room) user ≡ false
  unfolding left_room
  left_room-gone m room user = elim (Bool-cases (is_host_of_transmission m user room)) [
    | inl h ↦ rw (h, release_transmission-empty m room) (unfold contains in refl)
    | inr h ↦ rw h (release_guest-absent m user room h)
  ]

  leave_room-HasLeft :
      (s : Negotiation D) (room user : String)
      → (leave_room env s room user).1 ≡ true
      → HasLeft env s (leave_room env s room user).0 room user
  unfolding leave_room
  leave_room-HasLeft s room user h = elim (Bool-cases (left_room env s.manager room user).1) [
    | inl e ↦
        let members = get_all_user_id_of_transmission s.manager room in
        let told = recipients env s.manager room user members in
        let t : Negotiation D = record s { manager = (left_room env s.manager room user).0 } in
        rw (e, send_all_lem t (leave_message room user) told)
          (record {
            told = told;
            sent = refl;
            everyone = λ id. contains-recipients env s.manager room user id members;
            gone = left_room-gone s.manager room user;
          })
    | inr e ↦ absurd (ground arith)
  ]

  leave_named-HasLeft :
      (s : Negotiation D) (hdl : Handle) (o : Option (String × String))
      → IsSound s.manager
      → (leave_named env s hdl o).1 ≡ true
      → (room : String) × (user : String) × (o ≡ some (room, user))
        × (find hdl s.manager.users ≡ some user)
        × HasAccess s.manager hdl room user
        × HasLeft env s (leave_named env s hdl o).0 room user
  unfolding leave_named
  leave_named-HasLeft s hdl none v h = absurd (ground arith)
  leave_named-HasLeft s hdl (some (room, user)) v h =
      elim (Bool-cases (user == "" || room == "" || not (get_user_id s.manager hdl == user))) [
        | inl e ↦ absurd (ground arith)
        | inr e ↦ elim (Bool-cases (is_connection_in_transmission env.expired s.manager hdl room)) [
          | inl c ↦
              let (live, known, access) =
                in_transmission-HasAccess env.expired s.manager hdl room v c in
              let named : get_user_id s.manager hdl ≡ user =
                (string_key.beq_iff (get_user_id s.manager hdl) user).0 (ground arith) in
              (
                room,
                user,
                refl,
                subst (λ u. find hdl s.manager.users ≡ some u) named known,
                subst (λ u. HasAccess s.manager hdl room u) named access,
                rw (e, c) (leave_room-HasLeft s room user (rw (e, c) at h)),
              )
          | inr c ↦ absurd (ground arith)
        ]
      ]

  -- In a sound state a request to leave that is accepted comes from a connection that speaks for
  -- the user it names and has access to the room; the user is in the room no more; and every other
  -- user of it whose connection there is live is told.
  pub leave_transmission-HasLeft :
      (s : Negotiation D) (hdl : Handle) (j : Object)
      → IsSound s.manager
      → (leave_transmission env s hdl j).1 ≡ true
      → (room : String) × (user : String) × (leave_fields_of j ≡ some (room, user))
        × (find hdl s.manager.users ≡ some user)
        × HasAccess s.manager hdl room user
        × HasLeft env s (leave_transmission env s hdl j).0 room user
  unfolding leave_transmission
  leave_transmission-HasLeft s hdl j v h = leave_named-HasLeft s hdl (leave_fields_of j) v h

  -- The guest that a host has disconnected from its room.
  pub record IsDisconnected (s t : Negotiation D) (hdl : Handle) (p : Peers) : Type 0 where
    pub entitled : IsEntitled env s.manager hdl p
    pub hosting : is_host_of_transmission s.manager p.user_id p.transmission_id ≡ true
    pub gone :
        contains (get_all_user_id_of_transmission t.manager p.transmission_id) p.remote_user_id
        ≡ false
    pub hosts : t.manager.hosts ≡ s.manager.hosts
    pub sent :
        t.sent
        ≡ s.sent
          ++ (
            get_room_handle s.manager p.remote_user_id p.transmission_id,
            leave_message p.transmission_id p.user_id,
          )
            ∷ []

  other_host :
      (m : Manager) (room user other : String)
      → is_host_of_transmission m user room ≡ true
      → (user == other) ≡ false
      → is_host_of_transmission m other room ≡ false
  unfolding is_host_of_transmission
  other_host m room user other h d = by_case (find room m.hosts) h
    where
      by_case :
          (o : Option String)
          → elim o [ none ↦ false | some host ↦ host == user ] ≡ true
          → elim o [ none ↦ false | some host ↦ host == other ] ≡ false
      by_case none h = refl
      by_case (some host) h = ground (
        arith,
        string_key.beq_iff host user,
        string_key.beq_iff host other,
        string_key.beq_iff user other,
      )

  disconnect_named-IsDisconnected :
      (s : Negotiation D) (hdl : Handle) (o : Option Peers)
      → IsSound s.manager
      → env.expired 0 ≡ true
      → (disconnect_named env s hdl o).1 ≡ true
      → (p : Peers) × (o ≡ some p) × IsDisconnected s (disconnect_named env s hdl o).0 hdl p
  unfolding disconnect_named destination
  disconnect_named-IsDisconnected s hdl none v z h = absurd (ground arith)
  disconnect_named-IsDisconnected s hdl (some p) v z h =
      elim (Bool-cases (authorized env s hdl p)) [
        | inl a ↦
            elim (Bool-cases
              (release_guest_from_transmission s.manager p.remote_user_id p.transmission_id).1) [
                | inl r ↦
                    let entitled = authorized-IsEntitled env s hdl p v z a in
                    let hosting : is_host_of_transmission s.manager p.user_id p.transmission_id
                        ≡ true =
                      ground arith in
                    (
                      p,
                      refl,
                      rw (a, hosting, r)
                          (record {
                            entitled = entitled;
                            hosting = hosting;
                            gone =
                                release_guest-absent s.manager p.remote_user_id p.transmission_id (
                                  other_host s.manager p.transmission_id p.user_id p.remote_user_id
                                    hosting entitled.distinct);
                            hosts =
                                release_guest-hosts s.manager p.remote_user_id p.transmission_id;
                            sent = refl;
                          }),
                    )
                | inr r ↦ absurd (ground arith)
              ]
        | inr a ↦ absurd (ground arith)
      ]

  -- In a sound state, with the empty handle expired, a request to disconnect a peer that is
  -- accepted comes from the connection of the room's host; the peer is in the room no more, every
  -- room keeps its host, and the peer's connection is told, and nobody else.
  pub disconnect_peer-IsDisconnected :
      (s : Negotiation D) (hdl : Handle) (j : Object)
      → IsSound s.manager
      → env.expired 0 ≡ true
      → (disconnect_peer env s hdl j).1 ≡ true
      → (p : Peers) × (peers j ≡ some p) × IsDisconnected s (disconnect_peer env s hdl j).0 hdl p
  unfolding disconnect_peer
  disconnect_peer-IsDisconnected s hdl j v z h =
      disconnect_named-IsDisconnected s hdl (peers j) v z h
