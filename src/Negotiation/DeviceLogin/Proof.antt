-- ===== src/Negotiation/DeviceLogin/Proof.antt =====
-- What a login by device key proves.
use text.Mathlib.Text.{starts_with}
use crossdesk_server.Common.{
  ℕ, String, ◌≡◌, ◌⊎◌, ◌<◌, refl, ap, true, false, ◌||◌, not, Option, none, some, ◌==◌, is_some,
  string_key, nat_key, find, erase, find-erase, Bool-cases, inl, inr, ==_refl, arith,
}
use crossdesk_server.AuthLimiter.Work as Work
use crossdesk_server.AuthLimiter.Work.{WorkLimiter}
use crossdesk_server.Transmission.State.{Handle}
use crossdesk_server.Negotiation.Json.{Object, as_text}
use crossdesk_server.Negotiation.State.{Environment, Negotiation}
use crossdesk_server.Negotiation.Authentication.{Authentication, Registration}
use crossdesk_server.Negotiation.Handlers.{Step, done, registering, to_authenticate}
use crossdesk_server.Negotiation.DeviceLogin.Request.{
  KeyRequest, device_of, field, size, parse_request,
}
use crossdesk_server.Negotiation.DeviceLogin.{
  LoginChallenge, KeyLibrary, KeyState, with_keys, is_verified, reject, challenged,
  admitted_challenge, begin_challenge, login_bound, login_proved, is_proof, proved,
  login_with_request, login_with_key,
}

-- The connection signed the challenge that was issued to it, for the id and the key of its request,
-- before it expired. The challenge is gone, and the others are still there.
pub record Proved {D R : Type 0} (env : Environment D R) (lib : KeyLibrary) (t : KeyState D)
    (hdl : Handle) (r : KeyRequest) (u : KeyState D × Step R) : Type 0 where
  pub challenge : LoginChallenge
  pub signature : String
  pub issued : find hdl t.keys.challenges ≡ some challenge
  pub fresh : env.now < challenge.expires
  pub same_id : r.id ≡ challenge.id
  pub same_key : r.public_key ≡ challenge.public_key
  pub signed : is_verified env lib r.id r.public_key challenge.nonce signature ≡ true
  pub used : find hdl u.0.keys.challenges ≡ none
  pub others :
      (h : Handle) → (h == hdl) ≡ false → find h u.0.keys.challenges ≡ find h t.keys.challenges
  pub bound :
      u.1 ≡ done true
      → env.database.read_login_public_key t.base.db (device_of r.id) ≡ some r.public_key

module _ {D R : Type 0} (env : Environment D R) (lib : KeyLibrary) (hdl : Handle) where
  bound-keys :
      (t : KeyState D) (r : KeyRequest) (o : Option String)
      → (login_bound env lib t hdl r o).0.keys ≡ t.keys
  unfolding login_bound with_keys reject
  bound-keys t r none = refl
  bound-keys t r (some bound) = ground arith

  pub proved-keys :
      (t : KeyState D) (r : KeyRequest) → (login_proved env lib t hdl r).0.keys ≡ t.keys
  unfolding login_proved reject
  proved-keys t r = elim (Bool-cases (r.id == "")) [
    | inl e ↦ elim (Bool-cases (not (r.password == ""))) [
      | inl f ↦ rw (e, f) refl
      | inr f ↦ rw (e, f) refl
    ]
    | inr e ↦ rw e (bound-keys t r (env.database.read_login_public_key t.base.db (device_of r.id)))
  ]

  bound-done :
      (t : KeyState D) (r : KeyRequest) (o : Option String)
      → (login_bound env lib t hdl r o).1 ≡ done true
      → o ≡ some r.public_key
  unfolding login_bound with_keys reject to_authenticate
  bound-done t r none h = absurd (cc)
  bound-done t r (some bound) h = elim (Bool-cases (bound == "")) [
    | inl e ↦ elim (Bool-cases (starts_with r.id "C-")) [
      | inl f ↦ absurd (not_done refl (rw (e, f) at h))
      | inr f ↦ absurd (asks _ (rw (e, f) at h))
    ]
    | inr e ↦ elim (Bool-cases (bound == r.public_key)) [
      | inl f ↦ ap some ((string_key.beq_iff bound r.public_key).0 f)
      | inr f ↦ absurd (not_done refl (rw (e, f) at h))
    ]
  ]
    where
      not_done : {step : Step R} → step ≡ done false → step ≡ done true → ⊥
      not_done p q = cc

      asks :
          (u : Negotiation D × Option (Authentication R))
          → (with_keys t.keys (to_authenticate env false u)).1 ≡ done true
          → ⊥
      asks (s, none) q = cc
      asks (s, some a) q = cc

  proved-done :
      (t : KeyState D) (r : KeyRequest)
      → (login_proved env lib t hdl r).1 ≡ done true
      → env.database.read_login_public_key t.base.db (device_of r.id) ≡ some r.public_key
  unfolding login_proved reject
  proved-done t r h = elim (Bool-cases (r.id == "")) [
    | inl e ↦ elim (Bool-cases (not (r.password == ""))) [
      | inl f ↦ absurd (not_done refl (rw (e, f) at h))
      | inr f ↦ absurd (registers refl (rw (e, f) at h))
    ]
    | inr e ↦
        bound-done t r (env.database.read_login_public_key t.base.db (device_of r.id)) (rw e at h)
  ]
    where
      not_done : {step : Step R} → step ≡ done false → step ≡ done true → ⊥
      not_done p q = cc

      registers : {step : Step R} {g : Registration} → step ≡ registering g → step ≡ done true → ⊥
      registers p q = cc

  challenge-done :
      (t : KeyState D) (r : KeyRequest) → (begin_challenge env lib t hdl r).1 ≡ done false
  unfolding begin_challenge reject admitted_challenge challenged
  challenge-done t r = elim (Bool-cases (not (size r.proof == 2) || r.has_sign)) [
    | inl e ↦ rw e refl
    | inr e ↦ rw e (admitted (Work.admit t.keys.limiter env.now r.source))
  ]
    where
      issued : (u : KeyState D) → (challenged env lib u hdl r).1 ≡ done false
      issued u = ground arith

      admitted : (a : WorkLimiter × ℕ) → (admitted_challenge env lib t hdl r a).1 ≡ done false
      admitted (limiter, retry) = elim (Bool-cases (not (retry == 0))) [
        | inl f ↦ rw f refl
        | inr f ↦ rw f (issued _)
      ]

  proof-signed :
      (c : LoginChallenge) (r : KeyRequest) (given o : Option String)
      → is_proof env lib c r given o ≡ true
      → (signature : String) × ((env.now < c.expires)
          × ((r.id ≡ c.id)
              × ((r.public_key ≡ c.public_key)
                  × (is_verified env lib r.id r.public_key c.nonce signature ≡ true))))
  unfolding is_proof
  proof-signed c r given none h = absurd (cc)
  proof-signed c r given (some signature) h = (
    signature,
    (
      ground arith,
      (
        ground (arith, string_key.beq_iff r.id c.id),
        (ground (arith, string_key.beq_iff r.public_key c.public_key), ground arith),
      ),
    ),
  )

  proved-Proved :
      (t : KeyState D) (r : KeyRequest) (o : Option LoginChallenge)
      → find hdl t.keys.challenges ≡ o
      → let u = proved env lib t hdl r o in (u.1 ≡ done false) ⊎ Proved env lib t hdl r u
  unfolding proved reject
  proved-Proved t r none e = inl refl
  proved-Proved t r (some c) e =
      let given = as_text (field "nonce" r.proof) in
      let signature = as_text (field "signature" r.proof) in
      elim (Bool-cases (is_proof env lib c r given signature)) [
        | inr f ↦ inl (rw f refl)
        | inl f ↦
            let (text, (fresh, (id, (key, signed)))) = proof-signed c r given signature f in
            let used : KeyState D = record t {
              keys = record t.keys { challenges = erase hdl t.keys.challenges };
            } in
            rw f (
              inr (record {
                challenge = c;
                signature = text;
                issued = e;
                fresh = fresh;
                same_id = id;
                same_key = key;
                signed = signed;
                used =
                    rw (proved-keys used r, find-erase hdl hdl t.keys.challenges, ==_refl hdl) refl;
                others = λ h d. rw (proved-keys used r) (
                    ground (
                      arith,
                      find-erase hdl h t.keys.challenges,
                      nat_key.beq_iff hdl h,
                      nat_key.beq_iff h hdl,
                    ));
                bound = λ d. proved-done used r d;
              }))
      ]

  request-Proved :
      (t : KeyState D) (j : Object) (source : String) (o : Option KeyRequest)
      → parse_request j source ≡ o
      → let u = login_with_request env lib t hdl o in
        (u.1 ≡ done false)
        ⊎ ((r : KeyRequest) × ((parse_request j source ≡ some r) × Proved env lib t hdl r u))
  unfolding login_with_request reject
  request-Proved t j source none e = inl refl
  request-Proved t j source (some r) e =
      elim (Bool-cases (not (is_some (field "signature" r.proof)))) [
        | inl f ↦ rw f (inl (challenge-done t r))
        | inr f ↦ rw f (elim (proved-Proved t r (find hdl t.keys.challenges) refl) [
          | inl denied ↦ inl denied
          | inr p ↦ inr (r, (e, p))
        ])
      ]

  -- A login by device key goes on, or is accepted, only if the connection signed the challenge that
  -- was issued to it for this id and key, before it expired; the challenge is used up, and no other
  -- connection's is. If it is accepted at once, then the key is the one that is bound to the id.
  pub login_with_key-Proved :
      (t : KeyState D) (j : Object) (source : String)
      → let u = login_with_key env lib t hdl j source in
        (u.1 ≡ done false)
        ⊎ ((r : KeyRequest) × ((parse_request j source ≡ some r) × Proved env lib t hdl r u))
  unfolding login_with_key
  login_with_key-Proved t j source = request-Proved t j source (parse_request j source) refl
