-- ===== src/Negotiation/Passwords.antt =====
-- `change_password`, with the results that answer a repeated request, and
-- `ForgetPasswordChangeResults`.
pub mod Cache
pub mod Retry
mod Examples
use Prim.Native.String.{len, ◌++◌ as append}
use text.Mathlib.Text.{starts_with}
use crossdesk_server.Common.{
  ℕ, String, Bool, true, false, ◌&&◌, ◌||◌, not, Option, none, some, List, [], ◌∷◌, ◌++◌, ◌==◌, ltb,
  leb, if◌then◌else◌, or_else, length, has_text, nat_key, string_key, Assoc, find, set, erase,
}
use crossdesk_server.Identity.{is_temporary_controller_id}
use crossdesk_server.Transmission.State.{Handle}
use crossdesk_server.Transmission.Connections.{get_user_id}
use crossdesk_server.Negotiation.Json.{Value, string, Object, get_string_field}
use crossdesk_server.Negotiation.State.{Environment, Negotiation, send}
use crossdesk_server.Negotiation.Work.{
  Dispatch, Start, run_now, queued, rejected, run_credential_work,
}

abbrev pub max_results : ℕ
max_results = 4096

-- DevicePassword::ValidInput
pub valid_input : String → Bool
valid_input password = leb (len password) 256 && not (has_text password "\0")

pub record Change (R : Type 0) : Type 0 where
  pub hdl : Handle
  pub user_id : String
  pub new_password : String
  pub stored : Option R
  pub message : Object
  pub cache_key : String
  pub fingerprint : String

-- The response of a request that was made before.
pub replay : String × Object → String → Object → Object
replay (fingerprint, response) given message =
    if fingerprint == given
    then response
    else set "reason" (string "Request ID was already used") message

-- The loop that keeps at most `max_results`.
trim : Assoc String (String × Object) → List String → Assoc String (String × Object) × List String
trim results [] = (results, [])
trim results (key ∷ keys) =
    let rest = trim (erase key results) keys in
    if ltb max_results (length (key ∷ keys)) then rest else (results, key ∷ keys)

remember : {D : Type 0} → Negotiation D → String → String → Object → Negotiation D
unfolding trim
remember s key fingerprint response =
    let kept = trim (set key (fingerprint, response) s.results) (s.result_order ++ key ∷ []) in
    record s { results = kept.0; result_order = kept.1 }

forget_keys :
    String
    → Assoc String (String × Object)
    → List String
    → Assoc String (String × Object) × List String
forget_keys prefix results [] = (results, [])
forget_keys prefix results (key ∷ keys) =
    let rest =
      forget_keys prefix (if starts_with key prefix then erase key results else results) keys in
    (rest.0, if starts_with key prefix then rest.1 else key ∷ rest.1)

pub forget_password_change_results : {D : Type 0} → Negotiation D → String → Negotiation D
unfolding forget_keys
forget_password_change_results s device_id =
    let kept = forget_keys (append device_id "\n") s.results s.result_order in
    record s { results = kept.0; result_order = kept.1 }

failed : Object
failed = ("type", string "change_password") ∷ ("status", string "fail") ∷ []

module _ {D R : Type 0} (env : Environment D R) where
  -- A request with a valid id, by a user who may change the password to a valid one.
  begin_fresh :
      Negotiation D
      → Handle
      → String
      → String
      → String
      → Object
      → Option (String × Object)
      → Negotiation D × Option (Change R)
  unfolding replay
  begin_fresh s hdl user_id new_password cache_key message (some cached) =
      (send s hdl (replay cached (env.fingerprint new_password) message), none)
  begin_fresh s hdl user_id new_password cache_key message none = (
    s,
    some (record {
      hdl = hdl;
      user_id = user_id;
      new_password = new_password;
      stored = env.database.read_password s.db user_id;
      message = message;
      cache_key = cache_key;
      fingerprint = env.fingerprint new_password;
    }),
  )

  begin_password :
      Negotiation D
      → Handle
      → String
      → String
      → Object
      → Option String
      → Negotiation D × Option (Change R)
  unfolding begin_fresh valid_input
  begin_password s hdl user_id request_id message none = (
    send s hdl (set "reason" (string "Password must contain exactly 6 characters") message),
    none,
  )
  begin_password s hdl user_id request_id message (some new_password) =
      if not (len new_password == 6) || not (valid_input new_password)
      then (
        send s hdl (set "reason" (string "Password must contain exactly 6 characters") message),
        none,
      )
      else let cache_key = append user_id (append "\n" request_id) in
        begin_fresh s hdl user_id new_password cache_key message (find cache_key s.results)

  begin_named :
      Negotiation D → Handle → Object → String → Object → Negotiation D × Option (Change R)
  unfolding begin_password
  begin_named s hdl j request_id message =
      let user_id = get_user_id s.manager hdl in
      let named = set "user_id" (string user_id) message in
      if user_id == ""
      then (send s hdl (set "reason" (string "Not authenticated") named), none)
      else if starts_with user_id "C-" || is_temporary_controller_id user_id
      then (
        send s hdl
            (set "reason" (string "Password changes are not allowed for this identity") named),
        none,
      )
      else begin_password s hdl user_id request_id named (get_string_field j "new_password")

  begin_request :
      Negotiation D → Handle → Object → Option String → Negotiation D × Option (Change R)
  unfolding begin_named failed
  begin_request s hdl j none =
      (send s hdl (set "reason" (string "Missing or invalid request ID") failed), none)
  begin_request s hdl j (some request_id) =
      if request_id == "" || ltb 128 (len request_id) || has_text request_id "\0"
      then (send s hdl (set "reason" (string "Missing or invalid request ID") failed), none)
      else begin_named s hdl j request_id (set "request_id" (string request_id) failed)

  -- What the handler does before the expensive work: a reply, or the work to be done.
  pub begin_change : Negotiation D → Handle → Object → Negotiation D × Option (Change R)
  unfolding begin_request
  begin_change s hdl j = begin_request s hdl j (get_string_field j "request_id")

  committed : Negotiation D → Change R → D × Bool → Negotiation D
  unfolding remember
  committed s c (db, false) =
      send (record s { db = db }) c.hdl
        (set "reason" (string "Failed to update password") c.message)
  committed s c (db, true) =
      let response = set "status" (string "success") c.message in
      send (remember (record s { db = db }) c.cache_key c.fingerprint response) c.hdl response

  commit : Negotiation D → Change R → Option R → Option R → Negotiation D
  unfolding committed
  commit s c (some stored) (some replacement) =
      committed s c (env.database.commit_password s.db c.user_id stored replacement)
  commit s c none replacement =
      send s c.hdl (set "reason" (string "Failed to update password") c.message)
  commit s c (some stored) none =
      send s c.hdl (set "reason" (string "Failed to update password") c.message)

  commit_once : Negotiation D → Change R → Option R → Option (String × Object) → Negotiation D
  unfolding replay commit
  commit_once s c replacement (some cached) = send s c.hdl (replay cached c.fingerprint c.message)
  commit_once s c replacement none = commit s c c.stored replacement

  -- The continuation, after the new password was hashed.
  pub finish_change : Negotiation D → Change R → Option R → Negotiation D
  unfolding commit_once
  finish_change s c replacement =
      if env.expired c.hdl || not (get_user_id s.manager c.hdl == c.user_id)
      then s
      else commit_once s c replacement (find c.cache_key s.results)

  started : Negotiation D × Start → Change R → Negotiation D × Option (Change R)
  unfolding finish_change
  started (s, run_now) c = (finish_change s c (env.hash c.new_password), none)
  started (s, queued) c = (s, some c)
  started (s, rejected) c = (s, none)

  dispatched :
      Negotiation D × Option (Change R) → String → Dispatch → Negotiation D × Option (Change R)
  unfolding started
  dispatched (s, none) source_address dispatch = (s, none)
  dispatched (s, some c) source_address dispatch =
      started (run_credential_work env s c.hdl source_address c.message dispatch) c

  -- The whole handler, with the work that it leaves to a dispatcher.
  pub change_password :
      Negotiation D → Handle → Object → String → Dispatch → Negotiation D × Option (Change R)
  unfolding begin_change dispatched
  change_password s hdl j source_address dispatch =
      dispatched (begin_change s hdl j) source_address dispatch
