-- ===== src/Negotiation/Handlers/Keeping.antt =====
-- `RunCredentialWork` on the work of a handler, and the whole handlers, keep the rooms and
-- connections sound.
use crossdesk_server.Common.{ℕ, String, ◌≡◌, refl, sym, subst, true, Option, none, some, string_key}
use crossdesk_server.AuthLimiter.Verify.{Limiter}
use crossdesk_server.Transmission.State.{Handle}
use crossdesk_server.Transmission.Soundness.{IsSound}
use crossdesk_server.Negotiation.Json.{Object}
use crossdesk_server.Negotiation.State.{Environment, Negotiation}
use crossdesk_server.Negotiation.Work.{Dispatch, Start, run_now, queued, rejected}
use crossdesk_server.Negotiation.Work.Rooms.{run_credential_work-manager}
use crossdesk_server.Negotiation.Authentication.{
  Authentication, Finished, authentication_work, registration_work, continue_authentication,
  continue_registration,
}
use crossdesk_server.Negotiation.Authentication.Soundness.{
  continue_authentication-IsSound, continue_registration-IsSound, work-manager,
}
use crossdesk_server.Negotiation.Handlers.{
  Step, done, key_login, authenticating, registering, completed, authenticated_now, launched,
  launch, login_user, query_user_id_list, join_transmission,
}
use crossdesk_server.Negotiation.Handlers.Soundness.{
  begin_login-IsSound, begin_query-IsSound, begin_join-IsSound,
}

-- The state that a handler ends in is sound, if it did not throw.
pub Keeps : {D R : Type 0} → Option (Negotiation D × Step R) → Type 0
Keeps none = Unit
Keeps (some (s, step)) = IsSound s.manager

module _ {D R : Type 0} (env : Environment D R) (x : env.expired 0 ≡ true) where
  now-IsSound :
      (o : Option (Negotiation D × Finished R)) (a : Authentication R) (t : Negotiation D)
      (step : Step R)
      → ((s : Negotiation D) (f : Finished R) → o ≡ some (s, f) → IsSound s.manager)
      → authenticated_now env o a ≡ some (t, step)
      → IsSound t.manager
  unfolding authenticated_now completed
  now-IsSound none a t step k h = absurd (cc)
  now-IsSound (some (s, f)) a t step k h =
      let done_now = continue_authentication env s a f in
      let same : done_now.0 ≡ t = cc in
      subst (λ u. IsSound u.manager) same (continue_authentication-IsSound env s a f x (k s f refl))

  launched-IsSound :
      (step : Step R) (r : Negotiation D × Start) (others : Limiter → Limiter) (end : ℕ)
      (t : Negotiation D) (last : Step R)
      → IsSound r.0.manager
      → launched env step r others end ≡ some (t, last)
      → IsSound t.manager
  unfolding launched completed
  launched-IsSound step (s, rejected) others end t last v h =
      let same : s ≡ t = cc in subst (λ u. IsSound u.manager) same v
  launched-IsSound step (s, queued) others end t last v h =
      let same : s ≡ t = cc in subst (λ u. IsSound u.manager) same v
  launched-IsSound (done b) (s, run_now) others end t last v h =
      let same : s ≡ t = cc in subst (λ u. IsSound u.manager) same v
  launched-IsSound key_login (s, run_now) others end t last v h =
      let same : s ≡ t = cc in subst (λ u. IsSound u.manager) same v
  launched-IsSound (authenticating a) (s, run_now) others end t last v h =
      now-IsSound (authentication_work env s a others end) a t last
        (λ u f e. subst IsSound (sym (work-manager env s a others end u f e)) v) h
  launched-IsSound (registering r) (s, run_now) others end t last v h =
      let registered_now = continue_registration env s r (registration_work env) in
      let same : registered_now.0 ≡ t = cc in
      subst (λ u. IsSound u.manager) same
        (continue_registration-IsSound env s r (registration_work env) x v)

  launch-IsSound :
      (r : Negotiation D × Step R) (source : String) (d : Dispatch) (others : Limiter → Limiter)
      (end : ℕ) (t : Negotiation D) (last : Step R)
      → IsSound r.0.manager
      → launch env r source d others end ≡ some (t, last)
      → IsSound t.manager
  unfolding launch
  launch-IsSound (s, done b) source d others end t last v h =
      let same : s ≡ t = cc in subst (λ u. IsSound u.manager) same v
  launch-IsSound (s, key_login) source d others end t last v h =
      let same : s ≡ t = cc in subst (λ u. IsSound u.manager) same v
  launch-IsSound (s, authenticating a) source d others end t last v h =
      launched-IsSound (authenticating a) _ others end t last
        (subst IsSound (sym (run_credential_work-manager env s a.hdl source a.failure d)) v) h
  launch-IsSound (s, registering r) source d others end t last v h =
      launched-IsSound (registering r) _ others end t last
        (subst IsSound (sym (run_credential_work-manager env s r.hdl source r.failure d)) v) h

  launch-Keeps :
      (r : Negotiation D × Step R) (source : String) (d : Dispatch) (others : Limiter → Limiter)
      (end : ℕ)
      → IsSound r.0.manager
      → Keeps (launch env r source d others end)
  unfolding Keeps
  launch-Keeps r source d others end v = ended (launch env r source d others end) refl
    where
      ended : (o : Option (Negotiation D × Step R)) → launch env r source d others end ≡ o → Keeps o
      ended none e = tt
      ended (some (t, last)) e = launch-IsSound r source d others end t last v e

-- Whatever the request, the collaborators and the dispatcher, the handlers that ask for credentials
-- keep the rooms and connections sound: each binding, route and grant of them agrees. The
-- connection 0 is the empty one, which has expired.
pub handlers-IsSound :
    {D R : Type 0} (env : Environment D R) (s : Negotiation D) (hdl : Handle) (j : Object)
    (source : String) (d : Dispatch) (others : Limiter → Limiter) (end : ℕ)
    → env.expired 0 ≡ true
    → IsSound s.manager
    → Keeps (login_user env s hdl j source d others end)
      × (Keeps (query_user_id_list env s hdl j source d others end).1
          × Keeps (join_transmission env s hdl j source d others end).1)
unfolding login_user query_user_id_list join_transmission
handlers-IsSound env s hdl j source d others end x v = (
  launch-Keeps env x _ source d others end (begin_login-IsSound env x s hdl j source v),
  (
    launch-Keeps env x _ source d others end (begin_query-IsSound env x s hdl j source v),
    launch-Keeps env x _ source d others end (begin_join-IsSound env x s hdl j source v),
  ),
)
