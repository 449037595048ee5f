-- ===== src/Negotiation/DeviceLogin.antt =====
-- src/device_login.cpp, `LoginWithKey`: a login by device key is answered with a challenge, whose
-- signature the next request carries. Every exception of the function is its `reject`.
pub mod Request
pub mod Proof
pub mod Challenges
mod Examples
use Prim.Native.String.{len}
use Prim.Native.Char.{Char, code}
use text.Mathlib.Text.{starts_with, char_at?}
use crossdesk_server.Common.{
  ℕ, zero, suc, ◌+◌, ◌*◌, String, Bool, true, false, ◌&&◌, ◌||◌, not, Option, none, some, List, [],
  ◌∷◌, ◌==◌, ltb, leb, if◌then◌else◌, or_else, is_some, length, has_text, split_at_sign, substr,
  string_key, nat_key, Assoc, find, set, set_ordered, erase, revise,
}
use crossdesk_server.Identity.{is_temporary_controller_id, is_temporary_controller_registration}
use crossdesk_server.AuthLimiter.Bucket.{second, device_key_binding}
use crossdesk_server.AuthLimiter.Verify.{Limiter}
use crossdesk_server.AuthLimiter.Work as Work
use crossdesk_server.AuthLimiter.Work.{WorkLimiter}
use crossdesk_server.Transmission.State.{Handle}
use crossdesk_server.Negotiation.Json.{
  Value, string, integer, boolean, Object, Members, nothing, member, as_text, is_one,
}
use crossdesk_server.Negotiation.State.{Environment, Negotiation, send}
use crossdesk_server.Negotiation.Work.{Dispatch}
use crossdesk_server.Negotiation.Login.{complete_login}
use crossdesk_server.Negotiation.Authentication.{logging_in, begin_authentication}
use crossdesk_server.Negotiation.Handlers.{
  Step, done, key_login, authenticating, registering, to_authenticate, completed, begin_login,
  launch,
}
use crossdesk_server.Negotiation.DeviceLogin.Request.{
  KeyRequest, hex, device_of, field, size, parse_request,
}

pub record LoginChallenge : Type 0 where
  pub id : String
  pub public_key : String
  pub nonce : String
  pub expires : ℕ

-- The members of SignalNegotiation for logins by key.
pub record KeyLogins : Type 0 where
  pub challenges : Assoc Handle LoginChallenge
  pub next_cleanup : ℕ
  pub limiter : WorkLimiter

-- What the libraries give: 32 random bytes, written in hexadecimal, or "", and whether a signature
-- of a transcript is one of the key's owner, all in hexadecimal.
pub record KeyLibrary : Type 0 where
  pub nonce : String
  pub is_signed : String → String → String → Bool

abbrev pub max_challenges : ℕ
max_challenges = 16384

key_failure : Object
key_failure =
    ("type", string "login")
    ∷ ("user_id", string "")
    ∷ ("status", string "fail")
    ∷ ("reason", string "Authentication failed")
    ∷ ("error_code", string "AUTHENTICATION_FAILED")
    ∷ []

pub live_challenge : (Handle → Bool) → ℕ → Handle → LoginChallenge → Option LoginChallenge
live_challenge expired now hdl c = if expired hdl || leb c.expires now then none else some c

cleanup : (Handle → Bool) → ℕ → KeyLogins → KeyLogins
unfolding live_challenge
cleanup expired now k =
    if leb k.next_cleanup now
    then record k {
      challenges = revise (live_challenge expired now) k.challenges;
      next_cleanup = now + second;
    }
    else k

pub record KeyState (D : Type 0) : Type 0 where
  pub keys : KeyLogins
  pub base : Negotiation D

-- What the rest of the program did with the base.
with_keys : {D R : Type 0} → KeyLogins → Negotiation D × Step R → KeyState D × Step R
with_keys keys (s, step) = (record { keys = keys; base = s }, step)

module _ {D R : Type 0} (env : Environment D R) (lib : KeyLibrary) where
  -- `Verify`
  pub is_verified : String → String → String → String → Bool
  is_verified id public_key nonce signature =
      hex public_key 32
      && hex signature 64
      && lib.is_signed public_key signature
          (env.dump ("crossdesk.device-login.v1" ∷ id ∷ public_key ∷ nonce ∷ []))

  reject : KeyState D → Handle → Object → KeyState D × Step R
  reject t hdl failure = (record t { base = send t.base hdl failure }, done false)

  -- The reply to a request without a signature, once the limiter let it through.
  challenged : KeyState D → Handle → KeyRequest → KeyState D × Step R
  unfolding cleanup reject device_of
  challenged t hdl r =
      let keys = cleanup env.expired env.now t.keys in
      let issued = record keys {
        challenges =
            set_ordered hdl
              (record {
                id = r.id;
                public_key = r.public_key;
                nonce = lib.nonce;
                expires = env.now + 10 * second;
              })
              keys.challenges;
      } in
      let key = env.database.read_login_public_key t.base.db (device_of r.id) in
      if leb max_challenges (length keys.challenges) && not (is_some (find hdl keys.challenges))
      then reject (record t { keys = keys }) hdl key_failure
      else if lib.nonce == ""
      then reject (record t { keys = keys }) hdl key_failure
      else (
        record {
          keys = issued;
          base = send t.base hdl (
              ("type", string "login_challenge")
              ∷ ("user_id", string r.id)
              ∷ ("device_key_version", integer 1)
              ∷ ("nonce", string lib.nonce)
              ∷ (
                "password_required",
                boolean (not (starts_with r.id "C-") && not (r.id == "") && or_else key "" == ""),
              )
              ∷ []);
        },
        done false,
      )

  admitted_challenge : KeyState D → Handle → KeyRequest → WorkLimiter × ℕ → KeyState D × Step R
  unfolding challenged
  admitted_challenge t hdl r (limiter, retry) =
      let charged = record t { keys = record t.keys { limiter = limiter } } in
      if not (retry == 0)
      then reject charged hdl (
          set "retry_after" (integer retry)
            (set "error_code" (string "CREDENTIAL_RATE_LIMITED") key_failure))
      else challenged charged hdl r

  begin_challenge : KeyState D → Handle → KeyRequest → KeyState D × Step R
  unfolding admitted_challenge
  begin_challenge t hdl r =
      if not (size r.proof == 2) || r.has_sign
      then reject t hdl key_failure
      else admitted_challenge t hdl r (Work.admit t.keys.limiter env.now r.source)

  -- A login with the key that is bound to the id, or the first binding of the key.
  login_bound : KeyState D → Handle → KeyRequest → Option String → KeyState D × Step R
  unfolding reject with_keys
  login_bound t hdl r none = reject t hdl key_failure
  login_bound t hdl r (some bound) =
      if not (bound == "")
      then if not (bound == r.public_key) || not (r.password == "")
        then reject t hdl key_failure
        else with_keys t.keys (
            completed env (
              complete_login env t.base hdl r.request r.id
                (record { device_id = r.id; password = ""; update = false }) false none
                r.public_key))
      else if starts_with r.id "C-"
      then reject t hdl key_failure
      else with_keys t.keys (
          to_authenticate env false (
            begin_authentication env t.base hdl r.source r.id r.password key_failure
              device_key_binding r.public_key (logging_in r.request r.id r.public_key)))

  pub login_proved : KeyState D → Handle → KeyRequest → KeyState D × Step R
  unfolding login_bound device_of
  login_proved t hdl r =
      if r.id == ""
      then if not (r.password == "") then reject t hdl key_failure else (
        t,
        registering (record {
          hdl = hdl;
          request = r.request;
          kind = r.id;
          login_public_key = r.public_key;
          failure = key_failure;
        }),
      )
      else login_bound t hdl r (env.database.read_login_public_key t.base.db (device_of r.id))

  pub is_proof : LoginChallenge → KeyRequest → Option String → Option String → Bool
  is_proof c r given none = false
  is_proof c r given (some signature) =
      not (leb c.expires env.now)
      && r.id == c.id
      && r.public_key == c.public_key
      && is_some given
      && or_else given "" == c.nonce
      && is_verified r.id r.public_key c.nonce signature

  -- A request with a signature uses the connection's challenge up, whatever comes of it.
  proved : KeyState D → Handle → KeyRequest → Option LoginChallenge → KeyState D × Step R
  unfolding login_proved field
  proved t hdl r none = reject t hdl key_failure
  proved t hdl r (some c) =
      let used = record t { keys = record t.keys { challenges = erase hdl t.keys.challenges } } in
      if is_proof c r (as_text (field "nonce" r.proof)) (as_text (field "signature" r.proof))
      then login_proved used hdl r
      else reject used hdl key_failure

  pub login_with_request : KeyState D → Handle → Option KeyRequest → KeyState D × Step R
  unfolding begin_challenge proved
  login_with_request t hdl none = reject t hdl key_failure
  login_with_request t hdl (some r) =
      if not (is_some (field "signature" r.proof))
      then begin_challenge t hdl r
      else proved t hdl r (find hdl t.keys.challenges)

  -- `LoginWithKey` up to the expensive work of a registration or of a first binding.
  pub login_with_key : KeyState D → Handle → Object → String → KeyState D × Step R
  unfolding login_with_request
  login_with_key t hdl j source = login_with_request t hdl (parse_request j source)

  -- `login_user`, where it is a login by key.
  by_key : KeyLogins → Handle → Object → String → Negotiation D × Step R → KeyState D × Step R
  unfolding login_with_key with_keys
  by_key keys hdl j source (s, key_login) =
      login_with_key (record { keys = keys; base = s }) hdl j source
  by_key keys hdl j source (s, done b) = with_keys keys (s, done b)
  by_key keys hdl j source (s, authenticating a) = with_keys keys (s, authenticating a)
  by_key keys hdl j source (s, registering r) = with_keys keys (s, registering r)

  pub begin_any_login : KeyState D → Handle → Object → String → KeyState D × Step R
  unfolding by_key
  begin_any_login t hdl j source = by_key t.keys hdl j source (begin_login env t.base hdl j source)
