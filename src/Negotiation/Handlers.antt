-- ===== src/Negotiation/Handlers.antt =====
-- The handlers of class SignalNegotiation that ask for credentials, `login_user`,
-- `query_user_id_list` and `join_transmission`: the checks of the application worker, then
-- `AuthenticateDevice` or `RegisterDevice`.
pub mod Admission
pub mod Soundness
pub mod Keeping
mod Examples
use text.Mathlib.Text.{starts_with}
use crossdesk_server.Common.{
  ℕ, String, Bool, true, false, ◌&&◌, ◌||◌, not, Option, none, some, List, [], ◌∷◌, ◌==◌,
  if◌then◌else◌, or_else, is_some, has_text, split_at_sign, substr, string_key, set, find,
}
use crossdesk_server.Identity.{is_temporary_controller_registration}
use crossdesk_server.AuthLimiter.Bucket.{device_login, remote_connection, member_query}
use crossdesk_server.AuthLimiter.Verify.{Limiter}
use crossdesk_server.Transmission.State.{Handle}
use crossdesk_server.Transmission.Connections.{get_user_id}
use crossdesk_server.Negotiation.Json.{
  string, strings, boolean, Object, as_text, is_one, has_field, get_string_field,
}
use crossdesk_server.Negotiation.State.{
  Environment, Negotiation, send, set_failure, valid_device_credentials,
}
use crossdesk_server.Negotiation.Work.{
  Dispatch, Start, run_now, queued, rejected, run_credential_work,
}
use crossdesk_server.Negotiation.Login.{login_failure, complete_login}
use crossdesk_server.Negotiation.Authentication.{
  Authentication, Registration, Finished, Purpose, logging_in, listing, joining,
  begin_authentication, authentication_work, continue_authentication, registration_work,
  continue_registration,
}

-- How far a handler came: it returned, or it goes on with `LoginWithKey`, with the expensive work
-- of `AuthenticateDevice` or with that of `RegisterDevice`.
pub data Step (R : Type 0) : Type 0 where
  done : Bool → Step R
  key_login : Step R
  authenticating : Authentication R → Step R
  registering : Registration → Step R

module _ {D R : Type 0} (env : Environment D R) where
  -- The rest of a handler that answers `answer` when `AuthenticateDevice` has nothing to do.
  unfoldable pub to_authenticate :
      Bool → Negotiation D × Option (Authentication R) → Negotiation D × Step R
  to_authenticate answer (s, none) = (s, done answer)
  to_authenticate answer (s, some a) = (s, authenticating a)

  unfoldable pub completed : Negotiation D × Bool → Negotiation D × Step R
  completed (s, b) = (s, done b)

  -- A login with the token of an earlier one.
  reconnected : Negotiation D → Handle → Object → String → Option ℕ → Negotiation D × Step R
  unfolding completed
  reconnected s hdl j host_id none =
      (send s hdl (set "reconnect_rejected" (boolean true) login_failure), done false)
  reconnected s hdl j host_id (some expires) = completed (
      complete_login env s hdl j host_id
        (record { device_id = host_id; password = ""; update = false }) false (some expires) "")

  -- `expires`, as far as the request names a token of the known version and no password.
  verified_token : Negotiation D → Object → String → Bool → Option String → Option ℕ
  verified_token s j host_id with_password none = none
  verified_token s j host_id with_password (some token) =
      if is_one (find "reconnect_version" j) && not with_password
      then env.database.verify_reconnect_credential s.db host_id token
      else none

  -- The branches of a login by id, once the id has no login key.
  login_without_key :
      Negotiation D → Handle → Object → String → String → String → Bool → Negotiation D × Step R
  unfolding reconnected verified_token to_authenticate completed
  login_without_key s hdl j source_address host_id password with_password =
      if has_field j "reconnect_token"
      then reconnected s hdl j host_id
          (verified_token s j host_id with_password (as_text (find "reconnect_token" j)))
      else if starts_with host_id "C-"
      then completed (
          complete_login env s hdl j host_id
            (record { device_id = host_id; password = ""; update = false }) false none "")
      else if host_id == "" || is_temporary_controller_registration host_id
      then (
        s,
        registering (record {
          hdl = hdl;
          request = j;
          kind = host_id;
          login_public_key = "";
          failure = login_failure;
        }),
      )
      else to_authenticate false (
          begin_authentication env s hdl source_address host_id password login_failure device_login
            "" (logging_in j host_id ""))

  login_with_id :
      Negotiation D → Handle → Object → String → String × String → Bool → Negotiation D × Step R
  unfolding login_without_key
  login_with_id s hdl j source_address (host_id, password) with_password =
      let login_key =
        env.database.read_login_public_key s.db
          (if starts_with host_id "C-" then substr host_id 2 else host_id) in
      if not (valid_device_credentials host_id password)
      then (send s hdl login_failure, done false)
      else if is_some login_key && not (or_else login_key "" == "")
      then (
        send s hdl
            (set_failure login_failure "DEVICE_KEY_REQUIRED" "Device key authentication required"),
        done false,
      )
      else login_without_key s hdl j source_address host_id password with_password

  login_named : Negotiation D → Handle → Object → String → Option String → Negotiation D × Step R
  unfolding login_with_id
  login_named s hdl j source_address none = (s, done false)
  login_named s hdl j source_address (some host_id_with_pwd) =
      login_with_id s hdl j source_address (split_at_sign host_id_with_pwd)
        (has_text host_id_with_pwd "@")

  -- `login_user` up to the expensive work.
  pub begin_login : Negotiation D → Handle → Object → String → Negotiation D × Step R
  unfolding login_named
  begin_login s hdl j source_address =
      if env.expired hdl
      then (s, done false)
      else if not (get_user_id s.manager hdl == "")
      then (
        send s hdl (
            ("type", string "login")
            ∷ ("user_id", string "")
            ∷ ("status", string "fail")
            ∷ ("reason", string "Already authenticated")
            ∷ []),
        done false,
      )
      else if has_field j "device_key"
      then (s, key_login)
      else login_named s hdl j source_address (get_string_field j "user_id")

  query_room : Negotiation D → Handle → String → String × String → Negotiation D × Step R
  unfolding to_authenticate
  query_room s hdl source_address (transmission_id, password) =
      let failure =
        ("type", string "user_id_list")
        ∷ ("transmission_id", string transmission_id)
        ∷ ("user_id_list", strings [])
        ∷ ("status", string "failed")
        ∷ [] in
      if env.expired hdl || get_user_id s.manager hdl == ""
      then (send s hdl (set "reason" (string "Not authenticated") failure), done true)
      else to_authenticate true (
          begin_authentication env s hdl source_address transmission_id password failure
            member_query "" (listing transmission_id))

  query_named : Negotiation D → Handle → String → Option String → Negotiation D × Step R
  unfolding query_room
  query_named s hdl source_address none = (s, done false)
  query_named s hdl source_address (some transmission_id_pwd) =
      query_room s hdl source_address (split_at_sign transmission_id_pwd)

  -- `query_user_id_list` up to the expensive work.
  pub begin_query : Negotiation D → Handle → Object → String → Negotiation D × Step R
  unfolding query_named
  begin_query s hdl j source_address =
      query_named s hdl source_address (get_string_field j "transmission_id")

  join_room :
      Negotiation D → Handle → String → String × String → Option String → Negotiation D × Step R
  unfolding to_authenticate
  join_room s hdl source_address (transmission_id, password) none = (s, done false)
  join_room s hdl source_address (transmission_id, password) (some user_id) =
      let failure =
        ("type", string "user_join_transmission")
        ∷ ("transmission_id", string transmission_id)
        ∷ ("status", string "failed")
        ∷ [] in
      if user_id == ""
      then (s, done false)
      else if env.expired hdl || not (get_user_id s.manager hdl == user_id)
      then (send s hdl (set_failure failure "NOT_AUTHENTICATED" "Not authenticated"), done true)
      else if password == "" && valid_device_credentials transmission_id password
      then (send s hdl (set_failure failure "PASSWORD_REQUIRED" "Password required"), done true)
      else to_authenticate true (
          begin_authentication env s hdl source_address transmission_id password failure
            remote_connection "" (joining transmission_id user_id))

  join_named : Negotiation D → Handle → Object → String → Option String → Negotiation D × Step R
  unfolding join_room
  join_named s hdl j source_address none = (s, done false)
  join_named s hdl j source_address (some transmission_id_pwd) =
      join_room s hdl source_address (split_at_sign transmission_id_pwd)
        (get_string_field j "user_id")

  -- `join_transmission` up to the expensive work.
  pub begin_join : Negotiation D → Handle → Object → String → Negotiation D × Step R
  unfolding join_named
  begin_join s hdl j source_address =
      join_named s hdl j source_address (get_string_field j "transmission_id")

  -- The work of `AuthenticateDevice` and its continuation, one right after the other.
  authenticated_now :
      Option (Negotiation D × Finished R) → Authentication R → Option (Negotiation D × Step R)
  unfolding completed
  authenticated_now none a = none
  authenticated_now (some (s, f)) a = some (completed (continue_authentication env s a f))

  launched :
      Step R → Negotiation D × Start → (Limiter → Limiter) → ℕ → Option (Negotiation D × Step R)
  unfolding authenticated_now completed
  launched step (s, rejected) others end = some (s, done false)
  launched step (s, queued) others end = some (s, step)
  launched (authenticating a) (s, run_now) others end =
      authenticated_now (authentication_work env s a others end) a
  launched (registering r) (s, run_now) others end =
      some (completed (continue_registration env s r (registration_work env)))
  launched (done b) (s, run_now) others end = some (s, done b)
  launched key_login (s, run_now) others end = some (s, key_login)

  -- `RunCredentialWork` on the work of a step. With a dispatcher that takes the work, it is left
  -- to it; without one it runs at once, where `none` is an exception of the limiter.
  pub launch :
      Negotiation D × Step R
      → String
      → Dispatch
      → (Limiter → Limiter)
      → ℕ
      → Option (Negotiation D × Step R)
  unfolding launched
  launch (s, done b) source_address dispatch others end = some (s, done b)
  launch (s, key_login) source_address dispatch others end = some (s, key_login)
  launch (s, authenticating a) source_address dispatch others end =
      launched (authenticating a)
        (run_credential_work env s a.hdl source_address a.failure dispatch) others end
  launch (s, registering r) source_address dispatch others end =
      launched (registering r) (run_credential_work env s r.hdl source_address r.failure dispatch)
        others end

  -- The whole handlers; `login_user` returns true, and calls `on_login`, when the step is
  -- `done true`.
  pub login_user :
      Negotiation D
      → Handle
      → Object
      → String
      → Dispatch
      → (Limiter → Limiter)
      → ℕ
      → Option (Negotiation D × Step R)
  unfolding begin_login launch
  login_user s hdl j source_address dispatch others end =
      launch (begin_login s hdl j source_address) source_address dispatch others end

  answer_of : Step R → Bool
  answer_of (done b) = b
  answer_of key_login = true
  answer_of (authenticating a) = true
  answer_of (registering r) = true

  pub query_user_id_list :
      Negotiation D
      → Handle
      → Object
      → String
      → Dispatch
      → (Limiter → Limiter)
      → ℕ
      → Bool × Option (Negotiation D × Step R)
  unfolding begin_query launch answer_of
  query_user_id_list s hdl j source_address dispatch others end =
      let begun = begin_query s hdl j source_address in
      (answer_of begun.1, launch begun source_address dispatch others end)

  pub join_transmission :
      Negotiation D
      → Handle
      → Object
      → String
      → Dispatch
      → (Limiter → Limiter)
      → ℕ
      → Bool × Option (Negotiation D × Step R)
  unfolding begin_join launch answer_of
  join_transmission s hdl j source_address dispatch others end =
      let begun = begin_join s hdl j source_address in
      (answer_of begun.1, launch begun source_address dispatch others end)
