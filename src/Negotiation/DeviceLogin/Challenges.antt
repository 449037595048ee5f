-- ===== src/Negotiation/DeviceLogin/Challenges.antt =====
-- How many challenges are kept.
use crossdesk_server.Common.{
  ℕ, String, ◌≡◌, ◌⊎◌, ◌≤◌, refl, Bool, false, ◌&&◌, ◌||◌, not, Option, none, some, ◌==◌, leb,
  is_some, length, string_key, nat_key, Assoc, find, find-erase, find-revise, find-set_ordered,
  and_then, AreIncreasing-UniqueKeys, erase, set_ordered, AreIncreasing, length-set_ordered,
  set_ordered-AreIncreasing, revise-AreIncreasing, length-revise-le, erase-AreIncreasing,
  length-erase-le, Bool-cases, inl, inr, arith,
}
use crossdesk_server.AuthLimiter.Work as Work
use crossdesk_server.AuthLimiter.Work.{WorkLimiter}
use crossdesk_server.Transmission.State.{Handle}
use crossdesk_server.Negotiation.Json.{Object, as_text}
use crossdesk_server.Negotiation.State.{Environment}
use crossdesk_server.Negotiation.DeviceLogin.Request.{KeyRequest, field, size, parse_request}
use crossdesk_server.Negotiation.DeviceLogin.{
  LoginChallenge, KeyLibrary, KeyLogins, KeyState, max_challenges, live_challenge, cleanup, reject,
  challenged, admitted_challenge, begin_challenge, is_proof, proved, login_with_request,
  login_with_key,
}
use crossdesk_server.Negotiation.DeviceLogin.Proof.{proved-keys}

-- One challenge for a connection, and at most `max_challenges`.
pub record AreBounded (challenges : Assoc Handle LoginChallenge) : Type 0 where
  pub increasing : AreIncreasing challenges
  pub bounded : length challenges ≤ max_challenges

cleanup-AreBounded :
    (expired : Handle → Bool) (now : ℕ) (k : KeyLogins)
    → AreBounded k.challenges
    → AreBounded (cleanup expired now k).challenges
unfolding cleanup
cleanup-AreBounded expired now k v =
    let f = live_challenge expired now in
    elim (Bool-cases (leb k.next_cleanup now)) [
      | inl e ↦ rw e (record {
        increasing = revise-AreIncreasing f k.challenges v.increasing;
        bounded = omega (arith, length-revise-le f k.challenges, v.bounded);
      })
      | inr e ↦ rw e v
    ]

erase-AreBounded :
    (hdl : Handle) (m : Assoc Handle LoginChallenge) → AreBounded m → AreBounded (erase hdl m)
erase-AreBounded hdl m v = record {
  increasing = erase-AreIncreasing hdl m v.increasing;
  bounded = omega (arith, length-erase-le hdl m, v.bounded);
}

set-AreBounded :
    (hdl : Handle) (c : LoginChallenge) (m : Assoc Handle LoginChallenge)
    → (leb max_challenges (length m) && not (is_some (find hdl m))) ≡ false
    → AreBounded m
    → AreBounded (set_ordered hdl c m)
set-AreBounded hdl c m room v = record {
  increasing = set_ordered-AreIncreasing hdl c m v.increasing;
  bounded = ground (arith, length-set_ordered hdl c m v.increasing, v.bounded);
}

module _ {D R : Type 0} (env : Environment D R) (lib : KeyLibrary) (hdl : Handle) where
  -- Each challenge of another connection is kept, or removed if it is out of date, and none is new.
  abbrev pub AreKept : Assoc Handle LoginChallenge → Assoc Handle LoginChallenge → Type 0
  AreKept before after =
      (h : Handle)
      → (hdl == h) ≡ false
      → (find h after ≡ find h before)
        ⊎ (find h after ≡ and_then (find h before) (live_challenge env.expired env.now h))

  abbrev pub AreManaged : KeyState D → KeyState D → Type 0
  AreManaged t u = AreBounded u.keys.challenges × AreKept t.keys.challenges u.keys.challenges

  cleanup-AreKept :
      (k : KeyLogins)
      → AreBounded k.challenges
      → AreKept k.challenges (cleanup env.expired env.now k).challenges
  unfolding cleanup
  cleanup-AreKept k v h d = elim (Bool-cases (leb k.next_cleanup env.now)) [
    | inl e ↦ rw e (
        inr (
          find-revise (live_challenge env.expired env.now) h k.challenges
            (AreIncreasing-UniqueKeys k.challenges v.increasing)))
    | inr e ↦ rw e (inl refl)
  ]

  set-AreKept :
      (c : LoginChallenge) (before after : Assoc Handle LoginChallenge)
      → AreKept before after
      → AreKept before (set_ordered hdl c after)
  set-AreKept c before after k h d = rw (find-set_ordered hdl h c after, d) (k h d)

  unchanged : (t : KeyState D) → AreBounded t.keys.challenges → AreManaged t t
  unchanged t v = (v, λ h d. inl refl)

  challenged-AreManaged :
      (t : KeyState D) (r : KeyRequest)
      → AreBounded t.keys.challenges
      → AreManaged t (challenged env lib t hdl r).0
  unfolding challenged reject
  challenged-AreManaged t r v =
      let keys = cleanup env.expired env.now t.keys in
      let w = cleanup-AreBounded env.expired env.now t.keys v in
      let k = cleanup-AreKept t.keys v in
      elim (Bool-cases
        (leb max_challenges (length keys.challenges) && not (is_some (find hdl keys.challenges)))) [
          | inl e ↦ rw e (w, k)
          | inr e ↦ elim (Bool-cases (lib.nonce == "")) [
            | inl f ↦ rw (e, f) (w, k)
            | inr f ↦
                rw (e, f)
                  (
                    set-AreBounded hdl _ keys.challenges e w,
                    set-AreKept _ t.keys.challenges keys.challenges k,
                  )
          ]
        ]

  begin-AreManaged :
      (t : KeyState D) (r : KeyRequest)
      → AreBounded t.keys.challenges
      → AreManaged t (begin_challenge env lib t hdl r).0
  unfolding begin_challenge reject admitted_challenge
  begin-AreManaged t r v = elim (Bool-cases (not (size r.proof == 2) || r.has_sign)) [
    | inl e ↦ rw e (unchanged t v)
    | inr e ↦ rw e (admitted (Work.admit t.keys.limiter env.now r.source))
  ]
    where
      admitted : (a : WorkLimiter × ℕ) → AreManaged t (admitted_challenge env lib t hdl r a).0
      admitted (limiter, retry) = elim (Bool-cases (not (retry == 0))) [
        | inl f ↦ rw f (v, λ h d. inl refl)
        | inr f ↦ rw f (challenged-AreManaged _ r v)
      ]

  proved-AreManaged :
      (t : KeyState D) (r : KeyRequest) (o : Option LoginChallenge)
      → AreBounded t.keys.challenges
      → AreManaged t (proved env lib t hdl r o).0
  unfolding proved reject
  proved-AreManaged t r none v = unchanged t v
  proved-AreManaged t r (some c) v =
      let w = erase-AreBounded hdl t.keys.challenges v in
      elim (Bool-cases (
        is_proof env lib c r (as_text (field "nonce" r.proof))
          (as_text (field "signature" r.proof)))) [
            | inl e ↦ rw (e, proved-keys env lib hdl _ r) (w, erased)
            | inr e ↦ rw e (w, erased)
          ]
    where
      erased : AreKept t.keys.challenges (erase hdl t.keys.challenges)
      erased h d = inl (rw (find-erase hdl h t.keys.challenges, d) refl)

  -- A login by device key keeps one challenge for each connection at most, and 16384 in all: where
  -- they were in order and bounded so, they are afterwards. Each challenge of another connection
  -- stays, unless its connection has expired or its time is over, and none is new there.
  pub login_with_key-AreManaged :
      (t : KeyState D) (j : Object) (source : String)
      → AreBounded t.keys.challenges
      → AreManaged t (login_with_key env lib t hdl j source).0
  unfolding login_with_key login_with_request reject
  login_with_key-AreManaged t j source v = requested (parse_request j source)
    where
      requested : (o : Option KeyRequest) → AreManaged t (login_with_request env lib t hdl o).0
      requested none = unchanged t v
      requested (some r) = elim (Bool-cases (not (is_some (field "signature" r.proof)))) [
        | inl e ↦ rw e (begin-AreManaged t r v)
        | inr e ↦ rw e (proved-AreManaged t r (find hdl t.keys.challenges) v)
      ]
