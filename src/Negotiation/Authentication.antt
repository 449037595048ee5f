-- ===== src/Negotiation/Authentication.antt =====
-- `AuthenticateDevice` and `RegisterDevice`, in the order in which their parts run: the checks of
-- the application worker, the expensive work, and its continuation on the application worker. What
-- `on_verified` does is a `Purpose`.
pub mod Asked
pub mod Verified
pub mod Soundness
mod Examples
use crossdesk_server.Common.{
  ℕ, max, String, Bool, true, false, ◌&&◌, ◌||◌, not, Option, none, some, List, [], ◌∷◌, ◌++◌, ◌==◌,
  ltb, if◌then◌else◌, or_else, is_some, string_key, nat_key, Assoc, find, set,
}
use crossdesk_server.Identity.{is_temporary_controller_id}
use crossdesk_server.AuthLimiter.Bucket.{Operation}
use crossdesk_server.AuthLimiter.Verify.{
  Limiter, Outcome, returned, Verdict, verdict, rethrown, cooldown_remaining,
}
use crossdesk_server.AuthLimiter.Verify as Verify
use crossdesk_server.Transmission.State.{Handle, Manager}
use crossdesk_server.Transmission.Rooms.{
  get_host_id_of_transmission, get_all_user_id_of_transmission,
}
use crossdesk_server.Transmission.Connections.{
  get_user_id, get_verified_device_id, get_ws_handle, bind_guest_connection,
}
use crossdesk_server.Negotiation.Json.{Value, string, strings, integer, Object}
use crossdesk_server.Negotiation.State.{
  Credential, Environment, Negotiation, send, set_failure, valid_device_credentials,
  add_connection_ice_config,
}
use crossdesk_server.Negotiation.Work.{principal}
use crossdesk_server.Negotiation.Login.{complete_login}

-- To log in to an id with a login key that was verified, to list a room's users, or to join a room.
pub data Purpose : Type 0 where
  logging_in : Object → String → String → Purpose
  listing : String → Purpose
  joining : String → String → Purpose

pub record Authentication (R : Type 0) : Type 0 where
  pub hdl : Handle
  pub source_address : String
  pub device_id : String
  pub password : String
  pub stored : Option R
  pub identity : String
  pub controller : String
  pub source_key : String
  pub pair_key : String
  pub failure : Object
  pub bind_login_key : String
  pub operation : Operation
  pub purpose : Purpose

-- What the work hands to its continuation.
pub record Finished (R : Type 0) : Type 0 where
  pub verified : Option R
  pub authenticated : Bool
  pub retry_after : ℕ
  pub unavailable : Bool

pub record Registration : Type 0 where
  pub hdl : Handle
  pub request : Object
  pub kind : String
  pub login_public_key : String
  pub failure : Object

join_failure : String → Object
join_failure transmission_id =
    ("type", string "user_join_transmission")
    ∷ ("transmission_id", string transmission_id)
    ∷ ("status", string "failed")
    ∷ []

module _ {D R : Type 0} (env : Environment D R) where
  -- `if (recovery_) recovery_->Issue(...)`: the new database and the messages.
  issued :
      Option (D → Manager → String → String → String → Handle → D × List (Handle × Object))
      → D
      → Manager
      → String
      → String
      → String
      → Handle
      → D × List (Handle × Object)
  issued none db m transmission_id host_id user_id hdl = (db, [])
  issued (some issue) db m transmission_id host_id user_id hdl =
      issue db m transmission_id host_id user_id hdl

  -- The end of a join, with the connection of the room's host.
  joined_room :
      Negotiation D → Handle → String → String → String → Handle → Manager × Bool → Negotiation D
  unfolding issued
  joined_room s hdl transmission_id user_id host_id host_hdl (m, false) = record s { manager = m }
  joined_room s hdl transmission_id user_id host_id host_hdl (m, true) =
      let db = (env.database.start_remote_control_session s.db transmission_id host_id user_id).0 in
      let r = issued env.issue_session db m transmission_id host_id user_id hdl in
      send (record s { manager = m; db = r.0; sent = s.sent ++ r.1 }) host_hdl
        (add_connection_ice_config env
          (("type", string "user_join_transmission")
            ∷ ("transmission_id", string transmission_id)
            ∷ ("user_id", string user_id)
            ∷ ("status", string "success")
            ∷ [])
          host_id)

  join_verified : Negotiation D → Handle → String → String → Negotiation D
  unfolding joined_room join_failure
  join_verified s hdl transmission_id user_id =
      let host_id = get_host_id_of_transmission s.manager transmission_id in
      let host_hdl = get_ws_handle s.manager host_id in
      if host_id == "" || env.expired host_hdl
      then send s hdl
          (set_failure (join_failure transmission_id) "REMOTE_UNAVAILABLE" "Remote unavailable")
      else joined_room s hdl transmission_id user_id host_id host_hdl
          (bind_guest_connection env.expired s.manager user_id transmission_id hdl)

  pub on_verified : Negotiation D → Handle → Purpose → Negotiation D × Bool
  unfolding join_verified
  on_verified s hdl (logging_in j host_id key) =
      complete_login env s hdl j host_id
        (record { device_id = host_id; password = ""; update = false }) false none key
  on_verified s hdl (listing transmission_id) = (
    send s hdl (
        ("type", string "user_id_list")
        ∷ ("transmission_id", string transmission_id)
        ∷ ("user_id_list", strings (get_all_user_id_of_transmission s.manager transmission_id))
        ∷ ("status", string "success")
        ∷ []),
    true,
  )
  on_verified s hdl (joining transmission_id user_id) =
      (join_verified s hdl transmission_id user_id, true)

  throttled : Object → Bool → ℕ → Object
  throttled failure unavailable retry_after = set "retry_after" (integer retry_after) (
      set_failure failure
        (if unavailable then "CREDENTIAL_SERVICE_BUSY" else "AUTHENTICATION_THROTTLED")
        (if unavailable then "Credential service busy" else "Too many authentication attempts"))

  -- `AuthenticateDevice` up to the work: a reply, or the work.
  unfoldable pub begin_authentication :
      Negotiation D
      → Handle
      → String
      → String
      → String
      → Object
      → Operation
      → String
      → Purpose
      → Negotiation D × Option (Authentication R)
  unfolding throttled principal
  begin_authentication s hdl source_address device_id password failure operation key purpose =
      let refusal = set_failure failure "AUTHENTICATION_FAILED" "Authentication failed" in
      if not (valid_device_credentials device_id password) || is_temporary_controller_id device_id
      then (send s hdl refusal, none)
      else let controller = get_verified_device_id s.manager hdl in
        let source = principal controller source_address in
        let source_key = env.dump source in
        let pair_key = env.dump (source ++ device_id ∷ []) in
        let manual = env.database.password_risk_delay s.db source_address controller in
        let retry_after =
          max (or_else manual 1) (cooldown_remaining s.auth env.now source_key pair_key) in
        if not (is_some manual) || ltb 0 retry_after
        then (send s hdl (throttled refusal (not (is_some manual)) retry_after), none)
        else (
          s,
          some (record {
            hdl = hdl;
            source_address = source_address;
            device_id = device_id;
            password = password;
            stored = env.database.read_password s.db device_id;
            identity = get_user_id s.manager hdl;
            controller = controller;
            source_key = source_key;
            pair_key = pair_key;
            failure = refusal;
            bind_login_key = key;
            operation = operation;
            purpose = purpose;
          }),
        )

  -- The result of `Verify`; the hash is computed when the limiter calls back, and only then.
  limited :
      Negotiation D
      → Authentication R
      → Option (Limiter × Verdict)
      → Option (Negotiation D × Finished R)
  limited s a none = none
  limited s a (some (l, rethrown)) = none
  limited s a (some (l, verdict authenticated retry_after)) = some (
    record s { auth = l },
    record {
      verified = if authenticated then env.verify a.stored a.password else none;
      authenticated = authenticated;
      retry_after = retry_after;
      unavailable = false;
    },
  )

  -- The work. While it hashes, other work uses the limiter (`others`) until `end`; `none` is an
  -- exception of the limiter.
  pub authentication_work :
      Negotiation D
      → Authentication R
      → (Limiter → Limiter)
      → ℕ
      → Option (Negotiation D × Finished R)
  unfolding limited
  authentication_work s a others end =
      let manual = env.database.password_risk_delay s.db a.source_address a.controller in
      if is_some manual && or_else manual 1 == 0
      then limited s a (
          Verify.verify s.auth env.now a.source_key a.pair_key others
            (returned (is_some (env.verify a.stored a.password))) end a.operation)
      else some (
        s,
        record {
          verified = none;
          authenticated = false;
          retry_after = or_else manual 1;
          unavailable = not (is_some manual);
        },
      )

  -- The administrator's rules are read again.
  rechecked : Negotiation D → Authentication R → Finished R → Finished R
  rechecked s a f =
      let current = env.database.password_risk_delay s.db a.source_address a.controller in
      if f.authenticated && (not (is_some current) || ltb 0 (or_else current 1))
      then record f {
        authenticated = false;
        retry_after = or_else current 1;
        unavailable = not (is_some current);
      }
      else f

  reply_failure : Negotiation D → Authentication R → Finished R → Negotiation D × Bool
  unfolding throttled
  reply_failure s a f = (
    send s a.hdl (
        if ltb 0 f.retry_after then throttled a.failure f.unavailable f.retry_after else a.failure),
    false,
  )

  -- The login key is bound with the committed password, unless there is none to bind.
  key_bound : D × Bool → Authentication R → R → D × Bool
  key_bound (db, false) a verified = (db, false)
  key_bound (db, true) a verified =
      if a.bind_login_key == ""
      then (db, true)
      else env.database.bind_login_public_key db a.device_id verified a.bind_login_key

  concluded : Negotiation D → Authentication R → Finished R → D × Bool → Negotiation D × Bool
  unfolding on_verified reply_failure
  concluded s a f (db, true) = on_verified (record s { db = db }) a.hdl a.purpose
  concluded s a f (db, false) = reply_failure (record s { db = db }) a f

  conclude :
      Negotiation D → Authentication R → Finished R → Option R → Option R → Negotiation D × Bool
  unfolding concluded key_bound
  conclude s a f (some stored) (some verified) =
      if f.authenticated
      then concluded s a f
          (key_bound (env.database.commit_password s.db a.device_id stored verified) a verified)
      else reply_failure s a f
  conclude s a f none verified = reply_failure s a f
  conclude s a f (some stored) none = reply_failure s a f

  -- The continuation.
  pub continue_authentication : Negotiation D → Authentication R → Finished R → Negotiation D × Bool
  unfolding rechecked conclude
  continue_authentication s a f =
      if env.expired a.hdl || not (get_user_id s.manager a.hdl == a.identity)
      then (s, false)
      else let g = rechecked s a f in conclude s a g a.stored g.verified

  registered : Negotiation D → Registration → Option R → Negotiation D × Bool
  registered s r none = (send s r.hdl r.failure, false)
  registered s r (some stored) =
      let (db, credential) =
        env.database.register_device s.db r.kind env.generated_password stored r.login_public_key in
      complete_login env (record s { db = db }) r.hdl r.request r.kind credential true none
        r.login_public_key

  -- The continuation of `RegisterDevice`, with the hash of the generated password.
  pub continue_registration : Negotiation D → Registration → Option R → Negotiation D × Bool
  unfolding registered
  continue_registration s r stored =
      if env.expired r.hdl || not (get_user_id s.manager r.hdl == "")
      then (s, false)
      else registered s r stored

  -- The work of `RegisterDevice`.
  pub registration_work : Option R
  registration_work = if env.generated_password == "" then none else env.hash env.generated_password
