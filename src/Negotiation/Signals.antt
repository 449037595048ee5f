-- ===== src/Negotiation/Signals.antt =====
-- The messages that peers of a room exchange, and how they leave: `offer`, `answer`,
-- `new_candidate`, `new_candidate_mid`, `leave_transmission` and `disconnect_peer`.
pub mod Relay
pub mod Leaving
mod Examples
use crossdesk_server.Common.{
  ℕ, String, Bool, true, false, ◌&&◌, ◌||◌, not, Option, none, some, List, [], ◌∷◌, ◌++◌, ◌==◌,
  if◌then◌else◌, string_key, Assoc, find, and_then,
}
use crossdesk_server.Transmission.State.{Handle, Manager}
use crossdesk_server.Transmission.Rooms.{
  get_host_id_of_transmission, is_host_of_transmission, get_all_user_id_of_transmission,
  release_transmission, release_guest_from_transmission,
}
use crossdesk_server.Transmission.Connections.{
  get_user_id, get_room_handle, is_connection_in_transmission,
}
use crossdesk_server.Negotiation.Json.{Value, string, Object, get_string_field}
use crossdesk_server.Negotiation.State.{
  Environment, Negotiation, send, copy_optional_ice_ufrag, add_connection_ice_config,
}

-- The fields that name the peers of a signal; `none` when one is missing or no text.
pub record Peers : Type 0 where
  pub transmission_id : String
  pub user_id : String
  pub remote_user_id : String

-- A chain of `!GetStringField(...) || ...`.
infixl 5 ◌>>=◌
abbrev ◌>>=◌ {ℓ κ} : {A : Type ℓ} {B : Type κ} → Option A → (A → Option B) → Option B
none >>= f = none
some a >>= f = f a

pub peers : Object → Option Peers
peers j = do
  transmission_id ← get_string_field j "transmission_id"
  user_id ← get_string_field j "user_id"
  remote_user_id ← get_string_field j "remote_user_id"
  some (record {
    transmission_id = transmission_id;
    user_id = user_id;
    remote_user_id = remote_user_id;
  })

module _ {D R : Type 0} (env : Environment D R) where
  pub is_authorized_peer_signal : Manager → Handle → String → String → String → Bool
  is_authorized_peer_signal m hdl user_id remote_user_id transmission_id =
      if env.expired hdl
        || user_id == ""
        || remote_user_id == ""
        || transmission_id == ""
        || user_id == remote_user_id
        || not (get_user_id m hdl == user_id)
      then false
      else let host_id = get_host_id_of_transmission m transmission_id in
        if host_id == "" || (not (user_id == host_id) && not (remote_user_id == host_id))
        then false
        else is_connection_in_transmission env.expired m hdl transmission_id
          && not (env.expired (get_room_handle m remote_user_id transmission_id))

  pub authorized : Negotiation D → Handle → Peers → Bool
  unfolding is_authorized_peer_signal
  authorized s hdl p =
      is_authorized_peer_signal s.manager hdl p.user_id p.remote_user_id p.transmission_id

  destination : Negotiation D → Peers → Handle
  destination s p = get_room_handle s.manager p.remote_user_id p.transmission_id

  send_offer : Negotiation D → Peers → Option String → Negotiation D
  unfolding destination
  send_offer s p none = s
  send_offer s p (some sdp) = send s (destination s p) (
      add_connection_ice_config env
        (("type", string "offer")
          ∷ ("transmission_id", string p.transmission_id)
          ∷ ("remote_user_id", string p.user_id)
          ∷ ("sdp", string sdp)
          ∷ [])
        p.remote_user_id)

  offer_fields : Negotiation D → Handle → Object → Option Peers → Negotiation D × Bool
  unfolding authorized send_offer
  offer_fields s hdl j none = (s, false)
  offer_fields s hdl j (some p) =
      if not (authorized s hdl p)
      then (s, false)
      else (send_offer s p (get_string_field j "sdp"), true)

  pub offer : Negotiation D → Handle → Object → Negotiation D × Bool
  unfolding offer_fields peers
  offer s hdl j = offer_fields s hdl j (peers j)

  send_answer : Negotiation D → Peers → Option String → Negotiation D
  unfolding destination
  send_answer s p none = s
  send_answer s p (some sdp) = send s (destination s p) (
      ("type", string "answer")
      ∷ ("sdp", string sdp)
      ∷ ("remote_user_id", string p.user_id)
      ∷ ("transmission_id", string p.transmission_id)
      ∷ [])

  answer_fields : Negotiation D → Handle → Object → Option Peers → Negotiation D × Bool
  unfolding authorized send_answer
  answer_fields s hdl j none = (s, false)
  answer_fields s hdl j (some p) =
      if not (authorized s hdl p)
      then (s, false)
      else (send_answer s p (get_string_field j "sdp"), true)

  pub answer : Negotiation D → Handle → Object → Negotiation D × Bool
  unfolding answer_fields peers
  answer s hdl j = answer_fields s hdl j (peers j)

  -- The end of both handlers of candidates; `none` is an invalid "ufrag".
  send_candidate : Negotiation D → Peers → Option Object → Negotiation D × Bool
  unfolding destination
  send_candidate s p none = (s, false)
  send_candidate s p (some message) = (send s (destination s p) message, true)

  candidate_fields :
      Negotiation D → Handle → Object → Option (Peers × String) → Negotiation D × Bool
  unfolding authorized send_candidate
  candidate_fields s hdl j none = (s, false)
  candidate_fields s hdl j (some (p, candidate)) =
      if not (authorized s hdl p)
      then (s, false)
      else send_candidate s p (
          copy_optional_ice_ufrag j (
            ("type", string "new_candidate")
            ∷ ("sdp", string candidate)
            ∷ ("remote_user_id", string p.user_id)
            ∷ ("transmission_id", string p.transmission_id)
            ∷ []))

  pub new_candidate : Negotiation D → Handle → Object → Negotiation D × Bool
  unfolding candidate_fields peers
  new_candidate s hdl j =
      candidate_fields s hdl j
        (do p ← peers j; candidate ← get_string_field j "sdp"; some (p, candidate))

  candidate_mid_fields :
      Negotiation D → Handle → Object → Option (Peers × (String × String)) → Negotiation D × Bool
  unfolding authorized send_candidate
  candidate_mid_fields s hdl j none = (s, false)
  candidate_mid_fields s hdl j (some (p, (candidate, mid))) =
      if not (authorized s hdl p)
      then (s, false)
      else send_candidate s p (
          copy_optional_ice_ufrag j (
            ("type", string "new_candidate_mid")
            ∷ ("remote_user_id", string p.user_id)
            ∷ ("transmission_id", string p.transmission_id)
            ∷ ("candidate", string candidate)
            ∷ ("mid", string mid)
            ∷ []))

  pub new_candidate_mid : Negotiation D → Handle → Object → Negotiation D × Bool
  unfolding candidate_mid_fields peers
  new_candidate_mid s hdl j = candidate_mid_fields s hdl j (do
    p ← peers j
    candidate ← get_string_field j "candidate"
    mid ← get_string_field j "mid"
    some (p, (candidate, mid)))

  -- The handles of the other users of a room that have not expired.
  recipients : Manager → String → String → List String → List Handle
  recipients m transmission_id user_id [] = []
  recipients m transmission_id user_id (id ∷ ids) =
      let rest = recipients m transmission_id user_id ids in
      let recipient = get_room_handle m id transmission_id in
      if id == user_id || env.expired recipient then rest else recipient ∷ rest

send_all : {D : Type 0} → Negotiation D → Object → List Handle → Negotiation D
send_all s message [] = s
send_all s message (hdl ∷ rest) = send_all (send s hdl message) message rest

pub leave_message : String → String → Object
leave_message transmission_id user_id =
    ("type", string "user_leave_transmission")
    ∷ ("transmission_id", string transmission_id)
    ∷ ("user_id", string user_id)
    ∷ []

pub leave_fields_of : Object → Option (String × String)
leave_fields_of j = do
  transmission_id ← get_string_field j "transmission_id"
  user_id ← get_string_field j "user_id"
  some (transmission_id, user_id)

module _ {D R : Type 0} (env : Environment D R) where
  -- The room or the guest goes; `false` when the guest was none.
  left_room : Manager → String → String → Manager × Bool
  left_room m transmission_id user_id =
      if is_host_of_transmission m user_id transmission_id
      then ((release_transmission m transmission_id).0, true)
      else release_guest_from_transmission m user_id transmission_id

  leave_room : Negotiation D → String → String → Negotiation D × Bool
  unfolding left_room recipients send_all leave_message
  leave_room s transmission_id user_id =
      let told =
        recipients env s.manager transmission_id user_id
          (get_all_user_id_of_transmission s.manager transmission_id) in
      let r = left_room s.manager transmission_id user_id in
      let t : Negotiation D = record s { manager = r.0 } in
      if r.1 then (send_all t (leave_message transmission_id user_id) told, true) else (t, false)

  leave_named : Negotiation D → Handle → Option (String × String) → Negotiation D × Bool
  unfolding leave_room
  leave_named s hdl none = (s, false)
  leave_named s hdl (some (transmission_id, user_id)) =
      if user_id == "" || transmission_id == "" || not (get_user_id s.manager hdl == user_id)
      then (s, false)
      else if not (is_connection_in_transmission env.expired s.manager hdl transmission_id)
      then (s, false)
      else leave_room s transmission_id user_id

  pub leave_transmission : Negotiation D → Handle → Object → Negotiation D × Bool
  unfolding leave_named leave_fields_of
  leave_transmission s hdl j = leave_named s hdl (leave_fields_of j)

  disconnect_named : Negotiation D → Handle → Option Peers → Negotiation D × Bool
  unfolding authorized destination leave_message
  disconnect_named s hdl none = (s, false)
  disconnect_named s hdl (some p) =
      if not (authorized env s hdl p)
        || not (is_host_of_transmission s.manager p.user_id p.transmission_id)
      then (s, false)
      else let recipient = destination env s p in
        let r = release_guest_from_transmission s.manager p.remote_user_id p.transmission_id in
        let t : Negotiation D = record s { manager = r.0 } in
        if r.1
        then (send t recipient (leave_message p.transmission_id p.user_id), true)
        else (t, false)

  pub disconnect_peer : Negotiation D → Handle → Object → Negotiation D × Bool
  unfolding disconnect_named peers
  disconnect_peer s hdl j = disconnect_named s hdl (peers j)
