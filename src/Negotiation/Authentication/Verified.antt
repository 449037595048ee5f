-- ===== src/Negotiation/Authentication/Verified.antt =====
-- `AuthenticateDevice`: what was verified when `on_verified` runs.
use crossdesk_server.Common.{
  ℕ, ◌≡◌, ◌⊎◌, refl, sym, ◌∙◌, Bool, true, false, ◌&&◌, ◌||◌, not, Option, none, some, ◌==◌, ltb,
  or_else, is_some, string_key, nat_key, Bool-cases, inl, inr, arith,
}
use crossdesk_server.AuthLimiter.Verify.{Limiter, Verdict, verdict, rethrown}
use crossdesk_server.AuthLimiter.Verify.Authentic.{verify-verdict}
use crossdesk_server.Transmission.Connections.{get_user_id}
use crossdesk_server.Negotiation.State.{Environment, Negotiation}
use crossdesk_server.Negotiation.Authentication.{
  Authentication, Finished, on_verified, limited, authentication_work, rechecked, reply_failure,
  key_bound, concluded, conclude, continue_authentication,
}

-- What a result that says authenticated comes from.
pub record IsChecked {D R : Type 0} (env : Environment D R) (s : Negotiation D)
    (a : Authentication R) (f : Finished R) : Type 0 where
  pub matched : f.authenticated ≡ true → is_some (env.verify a.stored a.password) ≡ true
  pub same : f.authenticated ≡ true → f.verified ≡ env.verify a.stored a.password
  pub allowed :
      f.authenticated ≡ true
      → env.database.password_risk_delay s.db a.source_address a.controller ≡ some 0

module _ {D R : Type 0} (env : Environment D R) where
  limited-IsChecked :
      (s : Negotiation D) (a : Authentication R) (o : Option (Limiter × Verdict))
      (t : Negotiation D) (f : Finished R)
      → ((l : Limiter) (n : ℕ)
          → o ≡ some (l, verdict true n)
          → is_some (env.verify a.stored a.password) ≡ true)
      → env.database.password_risk_delay s.db a.source_address a.controller ≡ some 0
      → limited env s a o ≡ some (t, f)
      → IsChecked env s a f
  unfolding limited
  limited-IsChecked s a none t f m r h = absurd (cc)
  limited-IsChecked s a (some (l, rethrown)) t f m r h = absurd (cc)
  limited-IsChecked s a (some (l, verdict true n)) t f m r h = record {
    matched = λ y. m l n refl;
    same = λ y. ground arith;
    allowed = λ y. r;
  }
  limited-IsChecked s a (some (l, verdict false n)) t f m r h = record {
    matched = λ y. absurd (ground arith);
    same = λ y. absurd (ground arith);
    allowed = λ y. r;
  }

  -- When the work ends, then the password matched the stored record if the result says
  -- authenticated, the result carries the record's replacement, and the administrator's rules
  -- let the attempt through.
  pub work-IsChecked :
      (s : Negotiation D) (a : Authentication R) (others : Limiter → Limiter) (end : ℕ)
      (t : Negotiation D) (f : Finished R)
      → authentication_work env s a others end ≡ some (t, f)
      → IsChecked env s a f
  unfolding authentication_work
  work-IsChecked s a others end t f h =
      elim (Bool-cases (is_some manual && or_else manual 1 == 0)) [
        | inl e ↦
            limited-IsChecked s a _ t f
              (λ l n q.
                verify-verdict s.auth env.now a.source_key a.pair_key others
                  (is_some (env.verify a.stored a.password)) end a.operation l n q)
              (no_delay manual e) (rw e at h)
        | inr e ↦ record {
          matched = λ y. absurd (ground arith);
          same = λ y. absurd (ground arith);
          allowed = λ y. absurd (ground arith);
        }
      ]
    where
      manual : Option ℕ
      manual = env.database.password_risk_delay s.db a.source_address a.controller

      no_delay : (o : Option ℕ) → (is_some o && or_else o 1 == 0) ≡ true → o ≡ some 0
      no_delay none h = cc
      no_delay (some n) h = ground (arith)

  -- Why `on_verified` ran, and on what.
  pub record IsVerified (s : Negotiation D) (a : Authentication R) (f : Finished R)
      (t : Negotiation D × Bool) : Type 0 where
    pub authenticated : f.authenticated ≡ true
    pub live : env.expired a.hdl ≡ false
    pub same_user : get_user_id s.manager a.hdl ≡ a.identity
    pub allowed : env.database.password_risk_delay s.db a.source_address a.controller ≡ some 0
    pub stored : R
    pub replacement : R
    pub was_stored : a.stored ≡ some stored
    pub was_verified : f.verified ≡ some replacement
    pub committed : (env.database.commit_password s.db a.device_id stored replacement).1 ≡ true
    pub db : D
    pub ran : t ≡ on_verified env (record s { db = db }) a.hdl a.purpose

  -- A refusal changes no room and no connection.
  abbrev pub IsRefused : Negotiation D → Negotiation D × Bool → Type 0
  IsRefused s t = (t.1 ≡ false) × (t.0.manager ≡ s.manager)

  concluded-cases :
      (s : Negotiation D) (a : Authentication R) (f : Finished R) (r : D × Bool)
      → IsRefused s (concluded env s a f r)
        ⊎ ((db : D) × (concluded env s a f r
              ≡ on_verified env (record s { db = db }) a.hdl a.purpose))
  unfolding concluded reply_failure
  concluded-cases s a f (db, false) = inl (refl, refl)
  concluded-cases s a f (db, true) = inr (db, refl)

  committed-cases :
      (s : Negotiation D) (a : Authentication R) (f : Finished R) (verified : R) (r : D × Bool)
      → IsRefused s (concluded env s a f (key_bound env r a verified))
        ⊎ ((r.1 ≡ true)
            × ((db : D) × (concluded env s a f (key_bound env r a verified)
                  ≡ on_verified env (record s { db = db }) a.hdl a.purpose)))
  unfolding key_bound concluded reply_failure
  committed-cases s a f verified (db, false) = inl (refl, refl)
  committed-cases s a f verified (db, true) =
      elim (concluded-cases s a f (key_bound env (db, true) a verified)) [
        | inl refused ↦ inl refused
        | inr ran ↦ inr (refl, ran)
      ]

  -- What `conclude` needs to know of the rules and the connection.
  record IsAllowed (s : Negotiation D) (a : Authentication R) (f g : Finished R) : Type 0 where
    pub live : env.expired a.hdl ≡ false
    pub same_user : get_user_id s.manager a.hdl ≡ a.identity
    pub same : g.verified ≡ f.verified
    pub rules :
        g.authenticated ≡ true
        → (f.authenticated ≡ true)
          × (env.database.password_risk_delay s.db a.source_address a.controller ≡ some 0)

  conclude-cases :
      (s : Negotiation D) (a : Authentication R) (f g : Finished R) (o v : Option R)
      → IsAllowed s a f g
      → a.stored ≡ o
      → g.verified ≡ v
      → IsRefused s (conclude env s a g o v) ⊎ IsVerified s a f (conclude env s a g o v)
  unfolding conclude reply_failure
  conclude-cases s a f g none v w p q = inl (refl, refl)
  conclude-cases s a f g (some stored) none w p q = inl (refl, refl)
  conclude-cases s a f g (some stored) (some verified) w p q = elim (Bool-cases g.authenticated) [
    | inr n ↦ inl (rw n (refl, refl))
    | inl y ↦
        let r = env.database.commit_password s.db a.device_id stored verified in
        let (passed, allowed) = w.rules y in
        elim (committed-cases s a g verified r) [
          | inl refused ↦ inl (rw y refused)
          | inr (done, (db, ran)) ↦ inr (record {
            authenticated = passed;
            live = w.live;
            same_user = w.same_user;
            allowed = allowed;
            stored = stored;
            replacement = verified;
            was_stored = p;
            was_verified = sym w.same ∙ q;
            committed = done;
            db = db;
            ran = rw y ran;
          })
        ]
  ]

  rechecked-same :
      (s : Negotiation D) (a : Authentication R) (f : Finished R)
      → (rechecked env s a f).verified ≡ f.verified
  unfolding rechecked
  rechecked-same s a f = ground arith

  rechecked-rules :
      (s : Negotiation D) (a : Authentication R) (f : Finished R)
      → (rechecked env s a f).authenticated ≡ true
      → (f.authenticated ≡ true)
        × (env.database.password_risk_delay s.db a.source_address a.controller ≡ some 0)
  unfolding rechecked
  rechecked-rules s a f h =
      passed f.authenticated (env.database.password_risk_delay s.db a.source_address a.controller)
        (ground (arith, h))
    where
      passed :
          (b : Bool) (o : Option ℕ)
          → (b && not (b && (not (is_some o) || ltb 0 (or_else o 1)))) ≡ true
          → (b ≡ true) × (o ≡ some 0)
      passed false o h = absurd (cc)
      passed true none h = absurd (cc)
      passed true (some n) h = (refl, ground arith)

  -- `on_verified` runs only for work that was authenticated, while the connection is live and
  -- still has the id that it had when it asked, after the administrator's rules were read again,
  -- and after the replacement of the hash that was verified was committed. Otherwise no room and
  -- no connection changes.
  pub continue_authentication-IsVerified :
      (s : Negotiation D) (a : Authentication R) (f : Finished R)
      → let t = continue_authentication env s a f in IsRefused s t ⊎ IsVerified s a f t
  unfolding continue_authentication
  continue_authentication-IsVerified s a f =
      elim (Bool-cases (env.expired a.hdl || not (get_user_id s.manager a.hdl == a.identity))) [
        | inl e ↦ inl (rw e (refl, refl))
        | inr e ↦ rw e (
            conclude-cases s a f (rechecked env s a f) a.stored _
              (record {
                live = ground arith;
                same_user =
                    ground (arith, string_key.beq_iff (get_user_id s.manager a.hdl) a.identity);
                same = rechecked-same s a f;
                rules = rechecked-rules s a f;
              })
              refl refl)
      ]
