-- ===== src/Negotiation/Authentication/Asked.antt =====
-- `AuthenticateDevice` before its work: what it is about when it goes on.
use crossdesk_server.Common.{
  max, String, ◌≡◌, refl, subst, true, false, ◌||◌, not, none, some, [], ◌∷◌, ◌++◌, ltb, or_else,
  is_some, string_key, Bool-cases, inl, inr, arith,
}
use crossdesk_server.Identity.{is_temporary_controller_id}
use crossdesk_server.AuthLimiter.Bucket.{Operation}
use crossdesk_server.AuthLimiter.Verify.{cooldown_remaining}
use crossdesk_server.Transmission.State.{Handle}
use crossdesk_server.Transmission.Connections.{get_user_id, get_verified_device_id}
use crossdesk_server.Negotiation.Json.{Object}
use crossdesk_server.Negotiation.State.{
  Environment, Negotiation, set_failure, valid_device_credentials,
}
use crossdesk_server.Negotiation.Work.{principal}
use crossdesk_server.Negotiation.Authentication.{
  Authentication, Purpose, throttled, begin_authentication,
}

-- What an authentication that was begun is about.
pub record IsAbout {D R : Type 0} (env : Environment D R) (s : Negotiation D) (hdl : Handle)
    (device_id password : String) (purpose : Purpose) (a : Authentication R) : Type 0 where
  pub same_hdl : a.hdl ≡ hdl
  pub same_device : a.device_id ≡ device_id
  pub same_password : a.password ≡ password
  pub same_purpose : a.purpose ≡ purpose
  pub identity : a.identity ≡ get_user_id s.manager hdl
  pub stored : a.stored ≡ env.database.read_password s.db device_id
  pub valid : valid_device_credentials device_id password ≡ true
  pub permanent : is_temporary_controller_id device_id ≡ false

module _ {D R : Type 0} (env : Environment D R) (s : Negotiation D) (hdl : Handle) where
  pub begin_authentication-IsAbout :
      (source device_id password : String) (failure : Object) (op : Operation) (key : String)
      (purpose : Purpose) (a : Authentication R)
      → (begin_authentication env s hdl source device_id password failure op key purpose).1 ≡ some a
      → IsAbout env s hdl device_id password purpose a
  unfolding begin_authentication throttled
  begin_authentication-IsAbout source device_id password failure op key purpose a h =
      let refusal = set_failure failure "AUTHENTICATION_FAILED" "Authentication failed" in
      let controller = get_verified_device_id s.manager hdl in
      let names = principal controller source in
      let source_key = env.dump names in
      let pair_key = env.dump (names ++ device_id ∷ []) in
      let manual = env.database.password_risk_delay s.db source controller in
      let retry = max (or_else manual 1) (cooldown_remaining s.auth env.now source_key pair_key) in
      let made : Authentication R = record {
        hdl = hdl;
        source_address = source;
        device_id = device_id;
        password = password;
        stored = env.database.read_password s.db device_id;
        identity = get_user_id s.manager hdl;
        controller = controller;
        source_key = source_key;
        pair_key = pair_key;
        failure = refusal;
        bind_login_key = key;
        operation = op;
        purpose = purpose;
      } in
      elim (Bool-cases (
        not (valid_device_credentials device_id password)
        || is_temporary_controller_id device_id)) [
          | inl e ↦ absurd (none-some (rw e at h))
          | inr e ↦ elim (Bool-cases (not (is_some manual) || ltb 0 retry)) [
            | inl f ↦ absurd (none-some (rw (e, f) at h))
            | inr f ↦
                let same : some made ≡ some a = rw (e, f) at h in
                subst (IsAbout env s hdl device_id password purpose) (some-injective same) (record {
                  same_hdl = refl;
                  same_device = refl;
                  same_password = refl;
                  same_purpose = refl;
                  identity = refl;
                  stored = refl;
                  valid = ground arith;
                  permanent = ground arith;
                })
          ]
        ]
    where
      none-some : {x : Authentication R} → none ≡ some x → ⊥
      none-some q = cc

      some-injective : {x y : Authentication R} → some x ≡ some y → x ≡ y
      some-injective q = cc
