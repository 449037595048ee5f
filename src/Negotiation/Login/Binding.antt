-- ===== src/Negotiation/Login/Binding.antt =====
-- What a login does to the connections: all of the binding, or nothing.
use text.Mathlib.Text.{starts_with}
use crossdesk_server.Common.{
  ℕ, String, ◌≡◌, ◌⊎◌, refl, ap, Bool, true, false, ◌||◌, not, Option, none, some, ◌==◌,
  if◌then◌else◌, or_else, is_some, substr, string_key, nat_key, find, find-set_ordered, Bool-cases,
  inl, inr, ==_refl, arith,
}
use crossdesk_server.Identity.{is_temporary_controller_id}
use crossdesk_server.Transmission.State.{Handle, Manager}
use crossdesk_server.Transmission.Rooms.{bind_host_to_transmission}
use crossdesk_server.Transmission.Soundness.{IsSound, bind_host-IsSound}
use crossdesk_server.Transmission.Connections.Binding.{bind_user-users}
use crossdesk_server.Transmission.Soundness.{bind_user-IsSound}
use crossdesk_server.Transmission.Connections.{get_user_id, bind_user_to_ws_handle}
use crossdesk_server.Negotiation.Json.{Object}
use crossdesk_server.Negotiation.State.{Credential, Environment, Negotiation}
use crossdesk_server.Negotiation.Login.{
  welcome_device, bound_device, keyed_device, complete_device, bound_controller, wrong_key,
  complete_controller, complete_login,
}

-- The connection speaks for the id, and every other one for whom it spoke before.
pub record SpeaksFor (m m' : Manager) (hdl : Handle) (id : String) : Type 0 where
  pub own : find hdl m'.users ≡ some id
  pub others : (h : Handle) → (h == hdl) ≡ false → find h m'.users ≡ find h m.users
  pub sound : IsSound m → IsSound m'

bind_host-users :
    (m : Manager) (host room : String) → (bind_host_to_transmission m host room).0.users ≡ m.users
unfolding bind_host_to_transmission
bind_host-users m host room =
    elim (Bool-cases (is_temporary_controller_id host || is_temporary_controller_id room)) [
      | inl e ↦ rw e refl
      | inr e ↦ elim (Bool-cases (is_some (find room m.hosts))) [
        | inl f ↦ rw (e, f) refl
        | inr f ↦ rw (e, f) refl
      ]
    ]

bind_host-SpeaksFor :
    (m m' : Manager) (hdl : Handle) (id host room : String)
    → SpeaksFor m m' hdl id
    → SpeaksFor m (bind_host_to_transmission m' host room).0 hdl id
bind_host-SpeaksFor m m' hdl id host room v = record {
  own = rw (bind_host-users m' host room) v.own;
  others = λ h d. rw (bind_host-users m' host room) (v.others h d);
  sound = λ k. bind_host-IsSound m' host room (v.sound k);
}

-- A result of binding a connection: refused, with nothing changed, or bound.
abbrev Bound : Manager → Handle → String → Manager × Bool → Type 0
Bound m hdl id r = (r ≡ (m, false)) ⊎ ((r.1 ≡ true) × SpeaksFor m r.0 hdl id)

bind_user-Bound :
    (expired : Handle → Bool) (m : Manager) (id : String) (hdl : Handle) (device : String) (now : ℕ)
    → expired 0 ≡ true
    → Bound m hdl id (bind_user_to_ws_handle expired m id hdl device now)
unfolding bind_user_to_ws_handle
bind_user-Bound expired m id hdl device now x = elim (Bool-cases (id == "" || expired hdl)) [
  | inl e ↦ inl (rw e refl)
  | inr e ↦ elim (Bool-cases (or_else (find hdl m.users) id == id)) [
    | inl free ↦
        let (bound, users) = bind_user-users expired m id hdl device now e free in
        inr (
          bound,
          record {
            own = rw (users, find-set_ordered hdl hdl id m.users, ==_refl hdl) refl;
            others = λ h d. rw users (
                ground (
                  arith,
                  find-set_ordered hdl h id m.users,
                  nat_key.beq_iff hdl h,
                  nat_key.beq_iff h hdl,
                ));
            sound = λ k. bind_user-IsSound expired m id hdl device now x k;
          },
        )
    | inr taken ↦ inl (rw (e, taken) refl)
  ]
]

-- What a login comes to. A refusal leaves the rooms and connections as they were. A login that is
-- accepted binds the connection to the id, whose login key is the one that was verified.
pub data LoginResult {D R : Type 0} (env : Environment D R) (s : Negotiation D) (hdl : Handle)
    (host_id : String) (c : Credential) (key : String) (t : Negotiation D × Bool) : Type 0 where
  refused : t.1 ≡ false → t.0.manager ≡ s.manager → LoginResult env s hdl host_id c key t
  device :
      t.1 ≡ true
      → starts_with host_id "C-" ≡ false
      → get_user_id s.manager hdl ≡ ""
      → env.database.read_login_public_key s.db c.device_id ≡ some key
      → SpeaksFor s.manager t.0.manager hdl c.device_id
      → LoginResult env s hdl host_id c key t
  controller :
      t.1 ≡ true
      → starts_with host_id "C-" ≡ true
      → get_user_id s.manager hdl ≡ ""
      → wrong_key env (env.database.read_login_public_key s.db (substr host_id 2)) key ≡ false
      → SpeaksFor s.manager t.0.manager hdl host_id
      → LoginResult env s hdl host_id c key t

module _ {D R : Type 0} (env : Environment D R) (s : Negotiation D) (hdl : Handle)
    (host_id : String) (c : Credential) (key : String) (free : get_user_id s.manager hdl ≡ "") where
  bound_device-Result :
      (j : Object) (registration : Bool) (expires : Option ℕ) (login_key : String)
      (r : Manager × Bool)
      → Bound s.manager hdl c.device_id r
      → starts_with host_id "C-" ≡ false
      → env.database.read_login_public_key s.db c.device_id ≡ some key
      → LoginResult env s hdl host_id c key
          (bound_device env s hdl j host_id c registration expires login_key r)
  unfolding bound_device welcome_device
  bound_device-Result j registration expires login_key (m, false) (inl e) o k =
      refused refl (ap (λ r. r.0) e)
  bound_device-Result j registration expires login_key (m, true) (inl e) o k = absurd (ground arith)
  bound_device-Result j registration expires login_key (m, false) (inr (y, v)) o k =
      absurd (ground arith)
  bound_device-Result j registration expires login_key (m, true) (inr (y, v)) o k =
      device refl o free k (elim (Bool-cases (is_temporary_controller_id c.device_id)) [
        | inl t ↦ rw t v
        | inr t ↦ rw t (bind_host-SpeaksFor s.manager m hdl c.device_id c.device_id c.device_id v)
      ])

  keyed_device-Result :
      (j : Object) (registration : Bool) (expires : Option ℕ) (o : Option String)
      → env.expired 0 ≡ true
      → starts_with host_id "C-" ≡ false
      → env.database.read_login_public_key s.db c.device_id ≡ o
      → LoginResult env s hdl host_id c key
          (keyed_device env s hdl j host_id c registration expires key o)
  unfolding keyed_device
  keyed_device-Result j registration expires none x p k = refused refl refl
  keyed_device-Result j registration expires (some login_key) x p k =
      elim (Bool-cases (login_key == key)) [
        | inl e ↦ rw e (
            bound_device-Result j registration expires login_key _
              (bind_user-Bound env.expired s.manager c.device_id hdl
                (if key == "" then "" else c.device_id) env.now x)
              p (ground (arith, string_key.beq_iff login_key key)))
        | inr e ↦ rw e (refused refl refl)
      ]

  bound_controller-Result :
      (j : Object) (r : Manager × Bool)
      → Bound s.manager hdl host_id r
      → starts_with host_id "C-" ≡ true
      → wrong_key env (env.database.read_login_public_key s.db (substr host_id 2)) key ≡ false
      → LoginResult env s hdl host_id c key (bound_controller env s hdl j host_id key r)
  unfolding bound_controller
  bound_controller-Result j (m, false) (inl e) o k = refused refl (ap (λ r. r.0) e)
  bound_controller-Result j (m, true) (inl e) o k = absurd (ground arith)
  bound_controller-Result j (m, false) (inr (y, v)) o k = absurd (ground arith)
  bound_controller-Result j (m, true) (inr (y, v)) o k =
      controller refl o free k (bind_host-SpeaksFor s.manager m hdl host_id host_id host_id v)

-- Whatever credential a login comes with, it is refused, and no connection or room changes, or it
-- binds its connection, which spoke for nobody, to the id that it is for: to that of the credential
-- if the database's login key is the verified one, or to the controller's if the key of its device
-- is not another. No other connection changes its user, and a sound state stays sound.
pub complete_login-Result :
    {D R : Type 0} (env : Environment D R) (s : Negotiation D) (hdl : Handle) (j : Object)
    (host_id : String) (c : Credential) (registration : Bool) (expires : Option ℕ) (key : String)
    → env.expired 0 ≡ true
    → LoginResult env s hdl host_id c key
        (complete_login env s hdl j host_id c registration expires key)
unfolding complete_login complete_device complete_controller
complete_login-Result env s hdl j host_id c registration expires key x =
    elim (Bool-cases (env.expired hdl || not (get_user_id s.manager hdl == ""))) [
      | inl e ↦ rw e (refused refl refl)
      | inr e ↦
          let free : get_user_id s.manager hdl ≡ "" =
            (string_key.beq_iff (get_user_id s.manager hdl) "").0 (ground arith) in
          elim (Bool-cases (starts_with host_id "C-")) [
            | inl p ↦
                elim (Bool-cases (
                  wrong_key env (env.database.read_login_public_key s.db (substr host_id 2)) key)) [
                    | inl w ↦ rw (e, p, w) (refused refl refl)
                    | inr w ↦
                        rw (e, p, w)
                          (bound_controller-Result env s hdl host_id c key free j _
                            (bind_user-Bound env.expired s.manager host_id hdl
                              (if key == "" then "" else substr host_id 2) env.now x)
                            p w)
                  ]
            | inr p ↦ elim (Bool-cases (c.device_id == "")) [
              | inl d ↦ rw (e, p, d) (refused refl refl)
              | inr d ↦
                  rw (e, p, d)
                    (keyed_device-Result env s hdl host_id c key free j registration expires
                      (env.database.read_login_public_key s.db c.device_id) x p refl)
            ]
          ]
    ]
