-- ===== src/Negotiation/Handlers/Admission.antt =====
-- What the handlers check before they ask for a password, and when they do not ask.
use text.Mathlib.Text.{starts_with}
use crossdesk_server.Common.{
  ℕ, String, ◌≡◌, ◌⊎◌, refl, Bool, true, false, ◌&&◌, ◌||◌, not, Option, none, some, ◌==◌,
  if◌then◌else◌, or_else, is_some, has_text, split_at_sign, substr, string_key, find, Bool-cases,
  inl, inr, arith,
}
use crossdesk_server.Identity.{is_temporary_controller_registration}
use crossdesk_server.AuthLimiter.Bucket.{remote_connection}
use crossdesk_server.Transmission.State.{Handle}
use crossdesk_server.Transmission.Connections.{get_user_id}
use crossdesk_server.Negotiation.Json.{Object, as_text, has_field, get_string_field}
use crossdesk_server.Negotiation.State.{Environment, Negotiation, valid_device_credentials}
use crossdesk_server.Negotiation.Authentication.{Authentication, Registration, joining}
use crossdesk_server.Negotiation.Authentication.Asked.{IsAbout, begin_authentication-IsAbout}
use crossdesk_server.Negotiation.Handlers.{
  Step, done, key_login, authenticating, registering, to_authenticate, reconnected, verified_token,
  login_without_key, login_with_id, login_named, begin_login, join_room, join_named, begin_join,
}

-- What a join asks, with the room and the password that its request names.
pub record Joins {D R : Type 0} (env : Environment D R) (s : Negotiation D) (hdl : Handle)
    (room : String × String) (a : Authentication R) : Type 0 where
  pub live : env.expired hdl ≡ false
  pub known : (get_user_id s.manager hdl == "") ≡ false
  pub given : (room.1 == "") ≡ false
  pub about : IsAbout env s hdl room.0 room.1 (joining room.0 (get_user_id s.manager hdl)) a

-- Why a login is accepted without a password: its id has no login key, and either it is the id of
-- a controller, or the token that the request carries is one of the id.
pub record IsKnown {D R : Type 0} (env : Environment D R) (s : Negotiation D) (hdl : Handle)
    (j : Object) (id : String) : Type 0 where
  pub live : env.expired hdl ≡ false
  pub free : get_user_id s.manager hdl ≡ ""
  pub keyless :
      or_else
        (env.database.read_login_public_key s.db (if starts_with id "C-" then substr id 2 else id))
        ""
      ≡ ""
  pub admitted :
      (starts_with id "C-" ≡ true)
      ⊎ ((token : String) × ((expires : ℕ) × ((as_text (find "reconnect_token" j) ≡ some token)
              × (env.database.verify_reconnect_credential s.db id token ≡ some expires))))

module _ {D R : Type 0} (env : Environment D R) (s : Negotiation D) (hdl : Handle) where
  asks :
      (answer : Bool) (r : Negotiation D × Option (Authentication R)) (a : Authentication R)
      → (to_authenticate env answer r).1 ≡ authenticating a
      → r.1 ≡ some a
  unfolding to_authenticate
  asks answer (t, none) a h = absurd (cc)
  asks answer (t, some b) a h = cc

  join_room-Joins :
      (source : String) (room : String × String) (o : Option String) (a : Authentication R)
      → (join_room env s hdl source room o).1 ≡ authenticating a
      → Joins env s hdl room a
  unfolding join_room
  join_room-Joins source (room, password) none a h = absurd (cc)
  join_room-Joins source (room, password) (some user) a h = elim (Bool-cases (user == "")) [
    | inl e ↦ absurd (done-asks (rw e at h))
    | inr e ↦ elim (Bool-cases (env.expired hdl || not (get_user_id s.manager hdl == user))) [
      | inl f ↦ absurd (done-asks (rw (e, f) at h))
      | inr f ↦ elim (Bool-cases (password == "" && valid_device_credentials room password)) [
        | inl g ↦ absurd (done-asks (rw (e, f, g) at h))
        | inr g ↦
            let named : get_user_id s.manager hdl ≡ user =
              (string_key.beq_iff (get_user_id s.manager hdl) user).0 (ground arith) in
            let about =
              begin_authentication-IsAbout env s hdl source room password _ remote_connection ""
                (joining room user) a (asks true _ a (rw (e, f, g) at h)) in
            record {
              live = ground arith;
              known = rw (named, e) refl;
              given = ground (arith, about.valid);
              about = rw named about;
            }
      ]
    ]
  ]
    where
      done-asks : {b : Bool} → done b ≡ authenticating a → ⊥
      done-asks q = cc

  -- A join that goes on to ask for the password comes from a live connection that has an id, the
  -- one that the join is for, and is about the room and the password that the request names. The
  -- password is not empty.
  pub begin_join-Joins :
      (j : Object) (source : String) (a : Authentication R)
      → (begin_join env s hdl j source).1 ≡ authenticating a
      → (name : String) × ((get_string_field j "transmission_id" ≡ some name)
          × Joins env s hdl (split_at_sign name) a)
  unfolding begin_join join_named
  begin_join-Joins j source a h = named (get_string_field j "transmission_id") refl h
    where
      named :
          (o : Option String)
          → get_string_field j "transmission_id" ≡ o
          → (join_named env s hdl j source o).1 ≡ authenticating a
          → (name : String) × ((get_string_field j "transmission_id" ≡ some name)
              × Joins env s hdl (split_at_sign name) a)
      named none e h = absurd (cc)
      named (some name) e h = (
        name,
        (e, join_room-Joins source (split_at_sign name) (get_string_field j "user_id") a h),
      )

  token-IsKnown :
      (j : Object) (id : String) (with_password : Bool) (o : Option String) (expires : ℕ)
      → verified_token env s j id with_password o ≡ some expires
      → (token : String) × ((o ≡ some token)
          × (env.database.verify_reconnect_credential s.db id token ≡ some expires))
  unfolding verified_token
  token-IsKnown j id with_password none expires h = absurd (cc)
  token-IsKnown j id with_password (some token) expires h = (token, (refl, ground (arith, h)))

  reconnected-IsKnown :
      (j : Object) (id : String) (o : Option ℕ)
      → (reconnected env s hdl j id o).1 ≡ done true
      → (expires : ℕ) × (o ≡ some expires)
  unfolding reconnected
  reconnected-IsKnown j id none h = absurd (cc)
  reconnected-IsKnown j id (some expires) h = (expires, refl)

  -- What lets a login pass at once.
  admits :
      (j : Object) (source id password : String) (with_password : Bool)
      → (login_without_key env s hdl j source id password with_password).1 ≡ done true
      → (starts_with id "C-" ≡ true)
        ⊎ ((token : String) × ((expires : ℕ) × ((as_text (find "reconnect_token" j) ≡ some token)
                × (env.database.verify_reconnect_credential s.db id token ≡ some expires))))
  unfolding login_without_key to_authenticate
  admits j source id password with_password h = elim (Bool-cases (has_field j "reconnect_token")) [
    | inl e ↦
        let (expires, verified) = reconnected-IsKnown j id _ (rw e at h) in
        let (token, (given, known)) =
          token-IsKnown j id with_password (as_text (find "reconnect_token" j)) expires verified in
        inr (token, (expires, (given, known)))
    | inr e ↦ elim (Bool-cases (starts_with id "C-")) [
      | inl f ↦ inl f
      | inr f ↦ elim (Bool-cases (id == "" || is_temporary_controller_registration id)) [
        | inl g ↦ absurd (no_step refl (rw (e, f, g) at h))
        | inr g ↦ absurd (not_done _ (rw (e, f, g) at h))
      ]
    ]
  ]
    where
      no_step : {r : Registration} {t : Step R} → t ≡ registering r → t ≡ done true → ⊥
      no_step p q = cc

      not_done :
          (r : Negotiation D × Option (Authentication R))
          → (to_authenticate env false r).1 ≡ done true
          → ⊥
      not_done (t, none) q = cc
      not_done (t, some a) q = cc

  named-IsKnown :
      (j : Object) (source : String) (parts : String × String) (with_password : Bool)
      → env.expired hdl ≡ false
      → get_user_id s.manager hdl ≡ ""
      → (login_with_id env s hdl j source parts with_password).1 ≡ done true
      → IsKnown env s hdl j parts.0
  unfolding login_with_id
  named-IsKnown j source (id, password) with_password x free h =
      let key =
        env.database.read_login_public_key s.db (if starts_with id "C-" then substr id 2 else id) in
      elim (Bool-cases (not (valid_device_credentials id password))) [
        | inl e ↦ absurd (refused refl (rw e at h))
        | inr e ↦ elim (Bool-cases (is_some key && not (or_else key "" == ""))) [
          | inl f ↦ absurd (refused refl (rw (e, f) at h))
          | inr f ↦ record {
            live = x;
            free = free;
            keyless = no_key key f;
            admitted = admits j source id password with_password (rw (e, f) at h);
          }
        ]
      ]
    where
      refused : {r : Step R} → r ≡ done false → r ≡ done true → ⊥
      refused p q = cc

      no_key :
          (o : Option String) → (is_some o && not (or_else o "" == "")) ≡ false → or_else o "" ≡ ""
      no_key none p = refl
      no_key (some key) p = (string_key.beq_iff key "").0 (ground arith)

  -- A login that is accepted at once, without a password, comes from a live connection that has no
  -- id, asks for an id without a login key, and either the id is that of a controller or the
  -- request carries a token that the database verifies for the id.
  pub begin_login-IsKnown :
      (j : Object) (source : String)
      → (begin_login env s hdl j source).1 ≡ done true
      → (name : String) × ((get_string_field j "user_id" ≡ some name)
          × IsKnown env s hdl j (split_at_sign name).0)
  unfolding begin_login login_named
  begin_login-IsKnown j source h = elim (Bool-cases (env.expired hdl)) [
    | inl e ↦ absurd (refused refl (rw e at h))
    | inr e ↦ elim (Bool-cases (not (get_user_id s.manager hdl == ""))) [
      | inl f ↦ absurd (refused refl (rw (e, f) at h))
      | inr f ↦ elim (Bool-cases (has_field j "device_key")) [
        | inl g ↦ absurd (by_key refl (rw (e, f, g) at h))
        | inr g ↦
            known e ((string_key.beq_iff (get_user_id s.manager hdl) "").0 (ground arith))
              (get_string_field j "user_id") refl (rw (e, f, g) at h)
      ]
    ]
  ]
    where
      refused : {t : Step R} → t ≡ done false → t ≡ done true → ⊥
      refused p q = cc

      by_key : {t : Step R} → t ≡ key_login → t ≡ done true → ⊥
      by_key p q = cc

      known :
          env.expired hdl ≡ false
          → get_user_id s.manager hdl ≡ ""
          → (o : Option String) → get_string_field j "user_id" ≡ o
          → (login_named env s hdl j source o).1 ≡ done true
          → (name : String) × ((get_string_field j "user_id" ≡ some name)
              × IsKnown env s hdl j (split_at_sign name).0)
      known x free none p q = absurd (cc)
      known x free (some name) p q =
          (name, (p, named-IsKnown j source (split_at_sign name) (has_text name "@") x free q))
