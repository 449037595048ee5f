-- ===== src/Negotiation/State.antt =====
-- The collaborators of class SignalNegotiation and its state. `Database` has the calls it makes of
-- DeviceDBManager, and `Environment` everything else that it is given: the connections that have
-- expired, the clock, the issuers, the libraries for hashing and for JSON texts, and `recovery_`, of
-- which it calls `Issue`: that changes what `D` keeps and sends messages.
pub mod Additions
use Prim.Native.String.{len}
use text.Mathlib.Text.{starts_with}
use crossdesk_server.Common.{
  ℕ, String, Bool, true, false, ◌&&◌, ◌||◌, not, Option, none, some, List, [], ◌∷◌, ◌++◌, ◌==◌, leb,
  ltb, if◌then◌else◌, or_else, has_text, string_key, Assoc, find, set,
}
use crossdesk_server.Identity.{is_temporary_controller_id}
use crossdesk_server.AuthLimiter.Verify.{Limiter}
use crossdesk_server.AuthLimiter.Work.{WorkLimiter}
use crossdesk_server.Transmission.State.{Handle, Manager}
use crossdesk_server.Negotiation.Json.{
  Value, string, integer, Object, Members, as_text, is_one, get_string_field,
}

pub record Credential : Type 0 where
  pub device_id : String
  pub password : String
  pub update : Bool

pub record ReconnectCredential : Type 0 where
  pub token : String
  pub expires_at : ℕ

-- `R` is the type of password records, `D` that of the database.
pub record Database (D R : Type 0) : Type 0 where
  pub update_device_client_info : D → String → String → String → D × Bool
  pub password_risk_delay : D → String → String → Option ℕ
  pub read_password : D → String → Option R
  pub commit_password : D → String → R → R → D × Bool
  pub bind_login_public_key : D → String → R → String → D × Bool
  pub read_login_public_key : D → String → Option String
  pub register_device : D → String → String → R → String → D × Credential
  pub remove_device : D → String → D × Bool
  pub start_remote_control_session : D → String → String → String → D × Bool
  pub revoke_reconnect_credential : D → String → D × Bool
  pub issue_reconnect_credential : D → String → D × Option ReconnectCredential
  pub verify_reconnect_credential : D → String → String → Option ℕ

pub record Environment (D R : Type 0) : Type 0 where
  pub expired : Handle → Bool
  pub now : ℕ
  pub database : Database D R
  pub ice_config : Option (String → Object)
  pub turn_credentials : Option (String → Members)
  pub dump : List String → String
  pub hash : String → Option R
  pub verify : Option R → String → Option R
  pub generated_password : String
  pub fingerprint : String → String
  pub issue_session :
      Option (D → Manager → String → String → String → Handle → D × List (Handle × Object))

pub record Negotiation (D : Type 0) : Type 0 where
  pub manager : Manager
  pub db : D
  pub auth : Limiter
  pub work : WorkLimiter
  pub results : Assoc String (String × Object)
  pub result_order : List String
  pub sent : List (Handle × Object)

-- send_msg_
abbrev pub send : {D : Type 0} → Negotiation D → Handle → Object → Negotiation D
send s hdl message = record s { sent = s.sent ++ (hdl, message) ∷ [] }

unfoldable pub set_failure : Object → String → String → Object
set_failure message code reason =
    let failed = set "reason" (string reason) (set "error_code" (string code) message) in
    if or_else (as_text (find "type" message)) "" == "user_join_transmission"
    then set "reason"
        (string (
          if code == "AUTHENTICATION_FAILED" || code == "PASSWORD_REQUIRED"
          then "Incorrect password"
          else "Remote unavailable"))
        failed
    else failed

unfoldable pub valid_device_credentials : String → String → Bool
valid_device_credentials device_id password =
    leb (len device_id) 128
    && leb (len password) 256
    && not (has_text device_id "\0")
    && not (has_text password "\0")

-- What a field "ufrag" adds to a message; `none` is the result false.
with_ufrag : Option Value → Object → Option Object
with_ufrag none destination = some destination
with_ufrag (some (string ufrag)) destination =
    if ltb 256 (len ufrag)
      || has_text ufrag "\0"
      || has_text ufrag " "
      || has_text ufrag "\t"
      || has_text ufrag "\r"
      || has_text ufrag "\n"
    then none
    else some (set "ufrag" (string ufrag) destination)
with_ufrag (some other) destination = none

pub copy_optional_ice_ufrag : Object → Object → Option Object
unfolding with_ufrag
copy_optional_ice_ufrag source destination = with_ufrag (find "ufrag" source) destination

unfoldable pub should_track_client_info : String → Bool
should_track_client_info user_id =
    not (user_id == "")
    && not (is_temporary_controller_id user_id)
    && not (starts_with user_id "C-")

turn_from : Option (String → Members) → Object → String → Object × Bool
turn_from none message user_id = (message, false)
turn_from (some issue) message user_id = (set "turn" (Value.object (issue user_id)) message, true)

copied_turn : Option Value → Object → Object × Bool
copied_turn none message = (message, false)
copied_turn (some turn) message = (set "turn" turn message, true)

-- message.update(config)
merged : Object → Object → Object
merged message [] = message
merged message ((key, value) ∷ rest) = merged (set key value message) rest

turn_for : Option (String → Object) → Option (String → Members) → Object → String → Object × Bool
unfolding turn_from copied_turn
turn_for (some issue) issuer message user_id = copied_turn (find "turn" (issue user_id)) message
turn_for none issuer message user_id = turn_from issuer message user_id

module _ {D R : Type 0} (env : Environment D R) where
  pub add_turn_credentials : Object → String → Object × Bool
  unfolding turn_for
  add_turn_credentials message user_id =
      if user_id == ""
      then (message, false)
      else turn_for env.ice_config env.turn_credentials message user_id

  login_ice : Option (String → Object) → Object → Object → String → Object
  unfolding add_turn_credentials
  login_ice none message request user_id = (add_turn_credentials message user_id).0
  login_ice (some issue) message request user_id =
      let versioned = set "ice_config_version" (integer 1) message in
      if is_one (find "ice_config_version" request)
      then versioned
      else (add_turn_credentials versioned user_id).0

  pub add_login_ice_config : Object → Object → String → Object
  unfolding login_ice
  add_login_ice_config message request user_id = login_ice env.ice_config message request user_id

  connection_ice : Option (String → Object) → Object → String → Object
  unfolding add_turn_credentials merged
  connection_ice none message user_id = (add_turn_credentials message user_id).0
  connection_ice (some issue) message user_id = merged message (issue user_id)

  pub add_connection_ice_config : Object → String → Object
  unfolding connection_ice
  add_connection_ice_config message user_id = connection_ice env.ice_config message user_id
