-- ===== src/Negotiation/Account.antt =====
-- The handlers that report to or ask for something of the connection's own id: `client_info`,
-- `revoke_reconnect_credential` and `turn_credentials`, and `OnTemporaryControllerDisconnect`.
pub mod ClientInfo
mod Examples
use Prim.Native.String.{len}
use crossdesk_server.Common.{
  ℕ, String, Bool, true, false, ◌&&◌, ◌||◌, not, Option, none, some, List, [], ◌∷◌, ◌==◌, ltb,
  if◌then◌else◌, split_at_sign, string_key, set,
}
use crossdesk_server.Identity.{is_temporary_controller_id}
use crossdesk_server.Transmission.State.{Handle}
use crossdesk_server.Transmission.Connections.{get_user_id}
use crossdesk_server.Negotiation.Json.{string, Object, get_string_field}
use crossdesk_server.Negotiation.State.{
  Environment, Negotiation, send, should_track_client_info, add_turn_credentials,
}

module _ {D R : Type 0} (env : Environment D R) where
  revoked : Negotiation D → Handle → String → D × Bool → Negotiation D × Bool
  revoked s hdl id (db, true) = (
    send (record s { db = db }) hdl
        (("type", string "revoke_reconnect_credential")
          ∷ ("user_id", string id)
          ∷ ("status", string "success")
          ∷ []),
    true,
  )
  revoked s hdl id (db, false) = (
    send (record s { db = db }) hdl
        (("type", string "revoke_reconnect_credential")
          ∷ ("user_id", string id)
          ∷ ("status", string "fail")
          ∷ ("reason", string "Unable to revoke reconnect credential")
          ∷ []),
    false,
  )

  pub revoke_reconnect_credential : Negotiation D → Handle → Negotiation D × Bool
  unfolding revoked
  revoke_reconnect_credential s hdl =
      let id = get_user_id s.manager hdl in
      revoked s hdl id (
        if should_track_client_info id
        then env.database.revoke_reconnect_credential s.db id
        else (s.db, false))

  info_fields : Negotiation D → Handle → Option String → Option String → Negotiation D × Bool
  info_fields s hdl none platform = (s, false)
  info_fields s hdl (some version) none = (s, false)
  info_fields s hdl (some version) (some platform) =
      let user_id = get_user_id s.manager hdl in
      let (db, stored) = env.database.update_device_client_info s.db user_id version platform in
      if version == "" || ltb 64 (len version) || platform == "" || ltb 32 (len platform)
      then (s, false)
      else if user_id == ""
      then (s, false)
      else if not (should_track_client_info user_id)
      then (s, true)
      else (record s { db = db }, stored)

  pub client_info : Negotiation D → Handle → Object → Negotiation D × Bool
  unfolding info_fields
  client_info s hdl j =
      info_fields s hdl (get_string_field j "version") (get_string_field j "platform")

  turn_reply : String → Object
  turn_reply user_id =
      let message = ("type", string "turn_credentials") ∷ [] in
      let added = add_turn_credentials env message user_id in
      if user_id == ""
      then set "reason" (string "Not authenticated") (set "status" (string "fail") message)
      else if added.1
      then set "status" (string "success") added.0
      else set "reason" (string "TURN credentials are not configured")
          (set "status" (string "fail") added.0)

  pub turn_credentials : Negotiation D → Handle → Negotiation D × Bool
  unfolding turn_reply
  turn_credentials s hdl = (send s hdl (turn_reply (get_user_id s.manager hdl)), true)

  pub on_temporary_controller_disconnect : Negotiation D → String → Negotiation D
  on_temporary_controller_disconnect s user_id =
      let pure_user_id = (split_at_sign user_id).0 in
      if is_temporary_controller_id pure_user_id
      then record s { db = (env.database.remove_device s.db pure_user_id).0 }
      else s
