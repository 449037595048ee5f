-- ===== src/Negotiation/Handlers/Soundness.antt =====
-- The handlers that ask for credentials keep the rooms and connections sound.
use text.Mathlib.Text.{starts_with}
use crossdesk_server.Common.{
  ℕ, String, ◌≡◌, sym, subst, Bool, true, false, ◌&&◌, ◌||◌, not, Option, none, some, ◌==◌,
  if◌then◌else◌, or_else, is_some, has_text, split_at_sign, substr, string_key, Bool-cases, inl,
  inr,
}
use crossdesk_server.Identity.{is_temporary_controller_registration}
use crossdesk_server.Transmission.State.{Handle, Manager}
use crossdesk_server.Transmission.Soundness.{IsSound}
use crossdesk_server.Transmission.Connections.{get_user_id}
use crossdesk_server.Negotiation.Json.{Object, has_field, get_string_field}
use crossdesk_server.Negotiation.State.{Environment, Negotiation, valid_device_credentials}
use crossdesk_server.Negotiation.Authentication.{Authentication}
use crossdesk_server.Negotiation.Authentication.Soundness.{
  complete_login-IsSound, begin_authentication-manager,
}
use crossdesk_server.Negotiation.Handlers.{
  to_authenticate, completed, reconnected, login_without_key, login_with_id, login_named,
  begin_login, query_room, query_named, begin_query, join_room, join_named, begin_join,
}

module _ {D R : Type 0} (env : Environment D R) (x : env.expired 0 ≡ true) where
  asked-IsSound :
      (answer : Bool) (m : Manager) (r : Negotiation D × Option (Authentication R))
      → r.0.manager ≡ m
      → IsSound m
      → IsSound (to_authenticate env answer r).0.manager
  unfolding to_authenticate
  asked-IsSound answer m (s, none) e v = subst IsSound (sym e) v
  asked-IsSound answer m (s, some a) e v = subst IsSound (sym e) v

  reconnected-IsSound :
      (s : Negotiation D) (hdl : Handle) (j : Object) (id : String) (o : Option ℕ)
      → IsSound s.manager
      → IsSound (reconnected env s hdl j id o).0.manager
  unfolding reconnected completed
  reconnected-IsSound s hdl j id none v = v
  reconnected-IsSound s hdl j id (some expires) v =
      complete_login-IsSound env s hdl j id _ false (some expires) "" x v

  login_without_key-IsSound :
      (s : Negotiation D) (hdl : Handle) (j : Object) (source id password : String) (w : Bool)
      → IsSound s.manager
      → IsSound (login_without_key env s hdl j source id password w).0.manager
  unfolding login_without_key completed
  login_without_key-IsSound s hdl j source id password w v =
      elim (Bool-cases (has_field j "reconnect_token")) [
        | inl e ↦ rw e (reconnected-IsSound s hdl j id _ v)
        | inr e ↦ elim (Bool-cases (starts_with id "C-")) [
          | inl f ↦ rw (e, f) (complete_login-IsSound env s hdl j id _ false none "" x v)
          | inr f ↦ elim (Bool-cases (id == "" || is_temporary_controller_registration id)) [
            | inl g ↦ rw (e, f, g) v
            | inr g ↦
                rw (e, f, g)
                  (asked-IsSound false s.manager _
                    (begin_authentication-manager env s hdl source id password _ _ "" _) v)
          ]
        ]
      ]

  login_with_id-IsSound :
      (s : Negotiation D) (hdl : Handle) (j : Object) (source : String) (parts : String × String)
      (w : Bool)
      → IsSound s.manager
      → IsSound (login_with_id env s hdl j source parts w).0.manager
  unfolding login_with_id
  login_with_id-IsSound s hdl j source (id, password) w v =
      let key =
        env.database.read_login_public_key s.db (if starts_with id "C-" then substr id 2 else id) in
      elim (Bool-cases (not (valid_device_credentials id password))) [
        | inl e ↦ rw e v
        | inr e ↦ elim (Bool-cases (is_some key && not (or_else key "" == ""))) [
          | inl f ↦ rw (e, f) v
          | inr f ↦ rw (e, f) (login_without_key-IsSound s hdl j source id password w v)
        ]
      ]

  login_named-IsSound :
      (s : Negotiation D) (hdl : Handle) (j : Object) (source : String) (o : Option String)
      → IsSound s.manager
      → IsSound (login_named env s hdl j source o).0.manager
  unfolding login_named
  login_named-IsSound s hdl j source none v = v
  login_named-IsSound s hdl j source (some name) v =
      login_with_id-IsSound s hdl j source (split_at_sign name) (has_text name "@") v

  pub begin_login-IsSound :
      (s : Negotiation D) (hdl : Handle) (j : Object) (source : String)
      → IsSound s.manager
      → IsSound (begin_login env s hdl j source).0.manager
  unfolding begin_login
  begin_login-IsSound s hdl j source v = elim (Bool-cases (env.expired hdl)) [
    | inl e ↦ rw e v
    | inr e ↦ elim (Bool-cases (not (get_user_id s.manager hdl == ""))) [
      | inl f ↦ rw (e, f) v
      | inr f ↦ elim (Bool-cases (has_field j "device_key")) [
        | inl g ↦ rw (e, f, g) v
        | inr g ↦ rw (e, f, g) (login_named-IsSound s hdl j source (get_string_field j "user_id") v)
      ]
    ]
  ]

  query_named-IsSound :
      (s : Negotiation D) (hdl : Handle) (source : String) (o : Option String)
      → IsSound s.manager
      → IsSound (query_named env s hdl source o).0.manager
  unfolding query_named query_room
  query_named-IsSound s hdl source none v = v
  query_named-IsSound s hdl source (some name) v =
      let (room, password) = split_at_sign name in
      elim (Bool-cases (env.expired hdl || get_user_id s.manager hdl == "")) [
        | inl e ↦ rw e v
        | inr e ↦ rw e (
            asked-IsSound true s.manager _
              (begin_authentication-manager env s hdl source room password _ _ "" _) v)
      ]

  join_room-IsSound :
      (s : Negotiation D) (hdl : Handle) (source : String) (room : String × String)
      (o : Option String)
      → IsSound s.manager
      → IsSound (join_room env s hdl source room o).0.manager
  unfolding join_room
  join_room-IsSound s hdl source (room, password) none v = v
  join_room-IsSound s hdl source (room, password) (some user) v = elim (Bool-cases (user == "")) [
    | inl e ↦ rw e v
    | inr e ↦ elim (Bool-cases (env.expired hdl || not (get_user_id s.manager hdl == user))) [
      | inl f ↦ rw (e, f) v
      | inr f ↦ elim (Bool-cases (password == "" && valid_device_credentials room password)) [
        | inl g ↦ rw (e, f, g) v
        | inr g ↦
            rw (e, f, g)
              (asked-IsSound true s.manager _
                (begin_authentication-manager env s hdl source room password _ _ "" _) v)
      ]
    ]
  ]

  join_named-IsSound :
      (s : Negotiation D) (hdl : Handle) (j : Object) (source : String) (o : Option String)
      → IsSound s.manager
      → IsSound (join_named env s hdl j source o).0.manager
  unfolding join_named
  join_named-IsSound s hdl j source none v = v
  join_named-IsSound s hdl j source (some name) v =
      join_room-IsSound s hdl source (split_at_sign name) (get_string_field j "user_id") v

  pub begin_query-IsSound :
      (s : Negotiation D) (hdl : Handle) (j : Object) (source : String)
      → IsSound s.manager
      → IsSound (begin_query env s hdl j source).0.manager
  unfolding begin_query
  begin_query-IsSound s hdl j source v =
      query_named-IsSound s hdl source (get_string_field j "transmission_id") v

  pub begin_join-IsSound :
      (s : Negotiation D) (hdl : Handle) (j : Object) (source : String)
      → IsSound s.manager
      → IsSound (begin_join env s hdl j source).0.manager
  unfolding begin_join
  begin_join-IsSound s hdl j source v =
      join_named-IsSound s hdl j source (get_string_field j "transmission_id") v
