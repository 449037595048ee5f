-- ===== src/Negotiation/Authentication/Soundness.antt =====
-- What a verified password lets happen keeps the rooms and connections sound.
use crossdesk_server.Common.{
  ℕ, String, ◌≡◌, refl, sym, subst, Bool, true, false, ◌&&◌, ◌||◌, not, Option, none, some, ◌==◌,
  string_key, nat_key, Bool-cases, inl, inr, is_some, or_else, arith,
}
use crossdesk_server.AuthLimiter.Bucket.{Operation}
use crossdesk_server.AuthLimiter.Verify.{Limiter, Verdict, verdict, rethrown}
use crossdesk_server.Transmission.State.{Handle, Manager}
use crossdesk_server.Transmission.Rooms.{get_host_id_of_transmission}
use crossdesk_server.Transmission.Soundness.{IsSound}
use crossdesk_server.Transmission.Connections.{get_user_id, get_ws_handle}
use crossdesk_server.Transmission.Soundness.{bind_guest_connection-IsSound}
use crossdesk_server.Negotiation.Json.{Object}
use crossdesk_server.Negotiation.State.{Credential, Environment, Negotiation}
use crossdesk_server.Negotiation.Login.{complete_login}
use crossdesk_server.Negotiation.Login.Binding.{
  LoginResult, refused, device, controller, complete_login-Result,
}
use crossdesk_server.Negotiation.Authentication.{
  Authentication, Finished, Purpose, logging_in, listing, joining, Registration, limited,
  joined_room, join_verified, on_verified, begin_authentication, authentication_work,
  continue_authentication, registered, continue_registration,
}
use crossdesk_server.Negotiation.Authentication.Verified.{continue_authentication-IsVerified}

module _ {D R : Type 0} (env : Environment D R) where
  pub complete_login-IsSound :
      (s : Negotiation D) (hdl : Handle) (j : Object) (host_id : String) (c : Credential)
      (registration : Bool) (expires : Option ℕ) (key : String)
      → env.expired 0 ≡ true
      → IsSound s.manager
      → IsSound (complete_login env s hdl j host_id c registration expires key).0.manager
  complete_login-IsSound s hdl j host_id c registration expires key x v =
      kept (complete_login-Result env s hdl j host_id c registration expires key x)
    where
      kept :
          {t : Negotiation D × Bool} → LoginResult env s hdl host_id c key t → IsSound t.0.manager
      kept (refused denied same) = subst IsSound (sym same) v
      kept (device accepted id free stored speaks) = speaks.sound v
      kept (controller accepted id free stored speaks) = speaks.sound v

  joined_room-IsSound :
      (s : Negotiation D) (hdl : Handle) (room user host : String) (host_hdl : Handle)
      (r : Manager × Bool)
      → IsSound r.0
      → IsSound (joined_room env s hdl room user host host_hdl r).manager
  unfolding joined_room
  joined_room-IsSound s hdl room user host host_hdl (m, false) v = v
  joined_room-IsSound s hdl room user host host_hdl (m, true) v = v

  on_verified-IsSound :
      (s : Negotiation D) (hdl : Handle) (p : Purpose)
      → env.expired 0 ≡ true
      → IsSound s.manager
      → IsSound (on_verified env s hdl p).0.manager
  unfolding on_verified join_verified
  on_verified-IsSound s hdl (logging_in j host_id key) x v =
      complete_login-IsSound s hdl j host_id _ false none key x v
  on_verified-IsSound s hdl (listing room) x v = v
  on_verified-IsSound s hdl (joining room user) x v =
      let host = get_host_id_of_transmission s.manager room in
      let host_hdl = get_ws_handle s.manager host in
      elim (Bool-cases (host == "" || env.expired host_hdl)) [
        | inl e ↦ rw e v
        | inr e ↦ rw e (
            joined_room-IsSound s hdl room user host host_hdl _
              (bind_guest_connection-IsSound env.expired s.manager user room hdl v))
      ]

  pub continue_authentication-IsSound :
      (s : Negotiation D) (a : Authentication R) (f : Finished R)
      → env.expired 0 ≡ true
      → IsSound s.manager
      → IsSound (continue_authentication env s a f).0.manager
  continue_authentication-IsSound s a f x v = elim (continue_authentication-IsVerified env s a f) [
    | inl (denied, same) ↦ subst IsSound (sym same) v
    | inr w ↦
        subst (λ t. IsSound t.0.manager) (sym w.ran)
          (on_verified-IsSound (record s { db = w.db }) a.hdl a.purpose x v)
  ]

  pub continue_registration-IsSound :
      (s : Negotiation D) (r : Registration) (o : Option R)
      → env.expired 0 ≡ true
      → IsSound s.manager
      → IsSound (continue_registration env s r o).0.manager
  unfolding continue_registration registered
  continue_registration-IsSound s r o x v =
      elim (Bool-cases (env.expired r.hdl || not (get_user_id s.manager r.hdl == ""))) [
        | inl e ↦ rw e v
        | inr e ↦ rw e (hashed o)
      ]
    where
      hashed : (p : Option R) → IsSound (registered env s r p).0.manager
      hashed none = v
      hashed (some stored) = complete_login-IsSound _ r.hdl r.request r.kind _ true none _ x v

  pub begin_authentication-manager :
      (s : Negotiation D) (hdl : Handle) (source id password : String) (failure : Object)
      (op : Operation) (key : String) (p : Purpose)
      → (begin_authentication env s hdl source id password failure op key p).0.manager ≡ s.manager
  unfolding begin_authentication
  begin_authentication-manager s hdl source id password failure op key p = ground arith

  limited-manager :
      (s : Negotiation D) (a : Authentication R) (o : Option (Limiter × Verdict))
      (t : Negotiation D) (f : Finished R)
      → limited env s a o ≡ some (t, f)
      → t.manager ≡ s.manager
  unfolding limited
  limited-manager s a none t f h = absurd (cc)
  limited-manager s a (some (l, rethrown)) t f h = absurd (cc)
  limited-manager s a (some (l, verdict passed n)) t f h =
      let same : record s { auth = l } ≡ t = cc in subst (λ u. u.manager ≡ s.manager) same refl

  pub work-manager :
      (s : Negotiation D) (a : Authentication R) (others : Limiter → Limiter) (end : ℕ)
      (t : Negotiation D) (f : Finished R)
      → authentication_work env s a others end ≡ some (t, f)
      → t.manager ≡ s.manager
  unfolding authentication_work
  work-manager s a others end t f h = elim (Bool-cases (is_some manual && or_else manual 1 == 0)) [
    | inl e ↦ limited-manager s a _ t f (rw e at h)
    | inr e ↦ unlimited refl (rw e at h)
  ]
    where
      manual : Option ℕ
      manual = env.database.password_risk_delay s.db a.source_address a.controller

      unlimited :
          {o : Option (Negotiation D × Finished R)} {g : Finished R}
          → o ≡ some (s, g)
          → o ≡ some (t, f)
          → t.manager ≡ s.manager
      unlimited p q = let same : s ≡ t = cc in subst (λ u. u.manager ≡ s.manager) same refl
