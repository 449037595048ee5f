-- ===== src/Negotiation/Account/ClientInfo.antt =====
-- What `client_info` stores.
use Prim.Native.String.{len}
use crossdesk_server.Common.{
  String, ◌≡◌, ◌⊎◌, ◌≤◌, refl, ap, subst, Bool, true, false, ◌||◌, not, Option, none, some, ◌==◌,
  ltb, string_key, Bool-cases, inl, inr, arith,
}
use crossdesk_server.Transmission.State.{Handle}
use crossdesk_server.Transmission.Connections.{get_user_id}
use crossdesk_server.Negotiation.Json.{Object, get_string_field}
use crossdesk_server.Negotiation.State.{Environment, Negotiation, should_track_client_info}
use crossdesk_server.Negotiation.Account.{info_fields, client_info}

-- The version and the platform were stored for the connection's own id.
pub record Stores {D R : Type 0} (env : Environment D R) (s : Negotiation D) (hdl : Handle)
    (j : Object) (t : Negotiation D) : Type 0 where
  pub version : String
  pub platform : String
  pub has_version : get_string_field j "version" ≡ some version
  pub has_platform : get_string_field j "platform" ≡ some platform
  pub version_given : (version == "") ≡ false
  pub platform_given : (platform == "") ≡ false
  pub version_bound : len version ≤ 64
  pub platform_bound : len platform ≤ 32
  pub tracked : should_track_client_info (get_user_id s.manager hdl) ≡ true
  pub stored :
      env.database.update_device_client_info s.db (get_user_id s.manager hdl) version platform
      ≡ (t.db, true)
  pub rest : t ≡ record s { db = t.db }

module _ {D R : Type 0} (env : Environment D R) (s : Negotiation D) (hdl : Handle)
    (j : Object) where
  fields-Stores :
      (o p : Option String)
      → get_string_field j "version" ≡ o
      → get_string_field j "platform" ≡ p
      → (t : Negotiation D) → info_fields env s hdl o p ≡ (t, true)
      → ((t ≡ s) × (should_track_client_info (get_user_id s.manager hdl) ≡ false))
        ⊎ Stores env s hdl j t
  unfolding info_fields
  fields-Stores none p e f t h = absurd (cc)
  fields-Stores (some version) none e f t h = absurd (cc)
  fields-Stores (some version) (some platform) e f t h =
      let user = get_user_id s.manager hdl in
      elim (Bool-cases
        (version == "" || ltb 64 (len version) || platform == "" || ltb 32 (len platform))) [
          | inl a ↦ absurd (failed refl (rw a at h))
          | inr a ↦ elim (Bool-cases (user == "")) [
            | inl b ↦ absurd (failed refl (rw (a, b) at h))
            | inr b ↦ elim (Bool-cases (not (should_track_client_info user))) [
              | inl c ↦ inl (unchanged refl (rw (a, b, c) at h), ground arith)
              | inr c ↦ inr (
                  let (kept, rest) =
                    written (env.database.update_device_client_info s.db user version platform) t
                      (rw (a, b, c) at h) in
                  record {
                    version = version;
                    platform = platform;
                    has_version = e;
                    has_platform = f;
                    version_given = ground arith;
                    platform_given = ground arith;
                    version_bound = ground arith;
                    platform_bound = ground arith;
                    tracked = ground (arith, c);
                    stored = kept;
                    rest = rest;
                  })
            ]
          ]
        ]
    where
      failed : {t : Negotiation D} {r : Negotiation D × Bool} → r ≡ (s, false) → r ≡ (t, true) → ⊥
      failed p q = cc

      unchanged :
          {t : Negotiation D} {r : Negotiation D × Bool} → r ≡ (s, true) → r ≡ (t, true) → t ≡ s
      unchanged p q = cc

      written :
          (r : D × Bool) (t : Negotiation D)
          → ◌≡◌ {A = Negotiation D × Bool} (record s { db = r.0 }, r.1) (t, true)
          → (◌≡◌ {A = D × Bool} r (t.db, true)) × (t ≡ record s { db = t.db })
      written (db, stored) t h =
          let same : record s { db = db } ≡ t = ap (λ r. r.0) h in
          let yes : stored ≡ true = ap (λ r. r.1) h in
          subst (λ u. (◌≡◌ {A = D × Bool} (db, stored) (u.db, true)) × (u ≡ record s { db = u.db }))
            same (rw yes refl, refl)

  -- `client_info` returns true only if it changes nothing, for an id that is not tracked, or if it
  -- stores a version and a platform, of at most 64 and 32 bytes and not empty, for the
  -- connection's own id, which is tracked.
  pub client_info-Stores :
      (t : Negotiation D)
      → client_info env s hdl j ≡ (t, true)
      → ((t ≡ s) × (should_track_client_info (get_user_id s.manager hdl) ≡ false))
        ⊎ Stores env s hdl j t
  unfolding client_info
  client_info-Stores t h =
      fields-Stores (get_string_field j "version") (get_string_field j "platform") refl refl t h
