-- ===== src/Negotiation/Login.antt =====
-- `CompleteLogin`: a connection is bound to its id, after the login key is checked again.
pub mod Binding
mod Examples
use Prim.Native.String.{◌++◌ as append}
use text.Mathlib.Text.{starts_with}
use crossdesk_server.Common.{
  ℕ, String, Bool, true, false, ◌&&◌, ◌||◌, not, Option, none, some, List, [], ◌∷◌, ◌++◌, ◌==◌,
  if◌then◌else◌, or_else, is_some, substr, string_key, Assoc, find, set,
}
use crossdesk_server.Identity.{is_temporary_controller_id}
use crossdesk_server.Transmission.State.{Handle, Manager}
use crossdesk_server.Transmission.Rooms.{bind_host_to_transmission}
use crossdesk_server.Transmission.Connections.{get_user_id, bind_user_to_ws_handle}
use crossdesk_server.Negotiation.Json.{Value, string, integer, boolean, Object, is_one}
use crossdesk_server.Negotiation.State.{
  Credential, ReconnectCredential, Environment, Negotiation, send, set_failure,
  should_track_client_info, add_login_ice_config,
}

abbrev pub login_failure : Object
login_failure =
    ("type", string "login")
    ∷ ("user_id", string "")
    ∷ ("status", string "fail")
    ∷ ("reason", string "Authentication failed")
    ∷ []

key_required : Object
key_required = set_failure login_failure "DEVICE_KEY_REQUIRED" "Device key authentication required"

-- The id that a login answers, with the password of a new registration.
returned_id : Credential → String → String
returned_id c host_id =
    let update_success = not (c.device_id == "") && c.update in
    let login_success = not (c.device_id == "") && c.password == "" && not c.update in
    let register_success =
      not (c.device_id == "") && not (c.password == "") && not (c.device_id == host_id) in
    if register_success
    then append c.device_id (append "@" c.password)
    else if login_success
    then c.device_id
    else if update_success
    then c.device_id
    else ""

with_reconnect : Option ReconnectCredential → Object → Object
with_reconnect none message = message
with_reconnect (some c) message =
    set "reconnect_expires_at" (integer c.expires_at)
      (set "reconnect_token" (string c.token) (set "reconnect_version" (integer 1) message))

module _ {D R : Type 0} (env : Environment D R) where
  -- The reply's members for reconnecting, with what issuing a credential writes.
  reconnect : D → Object → String → String → Option ℕ → Object → D × Object
  unfolding with_reconnect
  reconnect db j id login_key (some expires) message = (
    db,
    set "reconnect_expires_at" (integer expires)
        (set "reconnect_version" (integer 1) (set "reconnected" (boolean true) message)),
  )
  reconnect db j id login_key none message =
      if login_key == "" && should_track_client_info id && is_one (find "reconnect_version" j)
      then (let r = env.database.issue_reconnect_credential db id in
          (r.0, with_reconnect r.1 message))
      else (db, message)

  -- The reply of a device's login, after its connection was bound.
  welcome_device :
      Negotiation D → Handle → Object → String → Credential → Option ℕ → String → Negotiation D
  unfolding returned_id reconnect
  welcome_device s hdl j host_id c expires login_key =
      let db =
        if should_track_client_info c.device_id
        then (env.database.update_device_client_info s.db c.device_id "" "").0
        else s.db in
      let message =
        ("type", string "login")
        ∷ ("user_id", string (returned_id c host_id))
        ∷ ("status", string "success")
        ∷ [] in
      let keyed =
        if not (login_key == "") then set "device_key_version" (integer 1) message else message in
      let r = reconnect db j c.device_id login_key expires keyed in
      send (record s { db = r.0 }) hdl (add_login_ice_config env r.1 j c.device_id)

  bound_device :
      Negotiation D
      → Handle
      → Object
      → String
      → Credential
      → Bool
      → Option ℕ
      → String
      → Manager × Bool
      → Negotiation D × Bool
  unfolding welcome_device
  bound_device s hdl j host_id c registration expires login_key (m, false) =
      let db = if registration then (env.database.remove_device s.db c.device_id).0 else s.db in
      (send (record s { manager = m; db = db }) hdl login_failure, false)
  bound_device s hdl j host_id c registration expires login_key (m, true) =
      let hosting =
        if not (is_temporary_controller_id c.device_id)
        then (bind_host_to_transmission m c.device_id c.device_id).0
        else m in
      (welcome_device (record s { manager = hosting }) hdl j host_id c expires login_key, true)

  keyed_device :
      Negotiation D
      → Handle
      → Object
      → String
      → Credential
      → Bool
      → Option ℕ
      → String
      → Option String
      → Negotiation D × Bool
  unfolding bound_device key_required
  keyed_device s hdl j host_id c registration expires verified_key none =
      (send s hdl login_failure, false)
  keyed_device s hdl j host_id c registration expires verified_key (some login_key) =
      if not (login_key == verified_key)
      then (send s hdl (if not (login_key == "") then key_required else login_failure), false)
      else bound_device s hdl j host_id c registration expires login_key (
          bind_user_to_ws_handle env.expired s.manager c.device_id hdl
            (if verified_key == "" then "" else c.device_id) env.now)

  complete_device :
      Negotiation D
      → Handle
      → Object
      → String
      → Credential
      → Bool
      → Option ℕ
      → String
      → Negotiation D × Bool
  unfolding keyed_device
  complete_device s hdl j host_id c registration expires verified_key =
      if c.device_id == ""
      then (send s hdl login_failure, false)
      else keyed_device s hdl j host_id c registration expires verified_key
          (env.database.read_login_public_key s.db c.device_id)

  bound_controller :
      Negotiation D → Handle → Object → String → String → Manager × Bool → Negotiation D × Bool
  bound_controller s hdl j host_id verified_key (m, false) =
      (send (record s { manager = m }) hdl login_failure, false)
  bound_controller s hdl j host_id verified_key (m, true) =
      let message =
        ("type", string "login")
        ∷ ("user_id", string host_id)
        ∷ ("status", string "success")
        ∷ [] in
      let keyed =
        if not (verified_key == "")
        then set "device_key_version" (integer 1) message
        else message in
      (
        send (record s { manager = (bind_host_to_transmission m host_id host_id).0 }) hdl
            (add_login_ice_config env keyed j host_id),
        true,
      )

  -- Whether a controller's login key is not the one that was verified.
  pub wrong_key : Option String → String → Bool
  wrong_key key verified_key =
      (not (verified_key == "") && not (is_some key && or_else key "" == verified_key))
      || (verified_key == "" && not (or_else key "" == ""))

  complete_controller : Negotiation D → Handle → Object → String → String → Negotiation D × Bool
  unfolding bound_controller wrong_key key_required
  complete_controller s hdl j host_id verified_key =
      let device_id = substr host_id 2 in
      if wrong_key (env.database.read_login_public_key s.db device_id) verified_key
      then (send s hdl key_required, false)
      else bound_controller s hdl j host_id verified_key (
          bind_user_to_ws_handle env.expired s.manager host_id hdl
            (if verified_key == "" then "" else device_id) env.now)

  unfoldable pub complete_login :
      Negotiation D
      → Handle
      → Object
      → String
      → Credential
      → Bool
      → Option ℕ
      → String
      → Negotiation D × Bool
  unfolding complete_device complete_controller
  complete_login s hdl j host_id c registration expires verified_key =
      if env.expired hdl || not (get_user_id s.manager hdl == "")
      then (s, false)
      else if not (starts_with host_id "C-")
      then complete_device s hdl j host_id c registration expires verified_key
      else complete_controller s hdl j host_id verified_key
