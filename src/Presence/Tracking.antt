-- ===== src/Presence/Tracking.antt =====
-- Which device ids the three sets of online clients hold, in any order of logins and logouts.
use text.Mathlib.Text.{starts_with}
use crossdesk_server.Common.{
  String, Bool, true, false, ◌&&◌, not, Option, List, [], ◌∷◌, ◌==◌, ◌≡◌, ap, arith, if◌then◌else◌,
  contains, contains-insert_set, contains-remove, string_key, Assoc, erase,
}
use crossdesk_server.Identity.{is_temporary_controller_id}
use crossdesk_server.Presence.{
  Database, Presence, Update, should_track_online_device, is_clone_client, is_web_client,
  track_login, track_logout, on_login, on_logout, notify_user_devices, forget_offline_device_data,
  update_user_devices, set_online,
}

pub data Call : Type 0 where
  login logout : String → Call
  watched : String → List String → Bool → Call

-- The ids that are online after a call, independently of their class.
pub online_after : Call → (String → Bool) → String → Bool
online_after (login id) before x = if id == x then true else before x
online_after (logout id) before x = if id == x then false else before x
online_after (watched user ids replace) before x = before x

pub online_after_all : List Call → (String → Bool) → String → Bool
online_after_all [] before = before
online_after_all (call ∷ calls) before = online_after_all calls (online_after call before)

module _ {D : Type 0} (database : Database D) where
  unfoldable pub perform : Call → Presence D → Presence D
  perform (login id) p = on_login database p id
  perform (logout id) p = on_logout database p id
  perform (watched user ids replace) p = update_user_devices p user ids replace

  unfoldable pub perform_all : List Call → Presence D → Presence D
  perform_all [] p = p
  perform_all (call ∷ calls) p = perform_all calls (perform call p)

-- Each set holds the ids of its class that are online.
pub record Tracks {D : Type 0} (online : String → Bool) (p : Presence D) : Type 0 where
  pub devices :
      (x : String) → contains p.online_devices x ≡ (online x && should_track_online_device x)
  pub web : (x : String) → contains p.online_web_clients x ≡ (online x && starts_with x "web-")
  pub cli :
      (x : String)
      → contains p.online_cli_clients x
        ≡ (online x && (starts_with x "cli-" && not (starts_with x "web-")))

-- The class of an id, as the branches test it.
same_class : (id x text : String) → (id == x) ≡ true → starts_with id text ≡ starts_with x text
same_class id x text h = ap (λ s. starts_with s text) ((string_key.beq_iff id x).0 h)

module _ {D : Type 0} where
  login-Tracks :
      (id : String) (online : String → Bool) (p : Presence D)
      → Tracks online p
      → Tracks (online_after (login id) online) (track_login id p)
  unfolding online_after track_login should_track_online_device is_clone_client is_web_client
      is_temporary_controller_id
  login-Tracks id online p v = record {
    devices = λ x. ground (
      arith,
      same_class id x "web-",
      same_class id x "cli-",
      same_class id x "C-",
      v.devices x,
      contains-insert_set id p.online_devices x,
    );
    web = λ x.
        ground
          (arith, same_class id x "web-", v.web x, contains-insert_set id p.online_web_clients x);
    cli = λ x. ground (
      arith,
      same_class id x "web-",
      same_class id x "cli-",
      v.cli x,
      contains-insert_set id p.online_cli_clients x,
    );
  }

  logout-Tracks :
      (id : String) (online : String → Bool) (p : Presence D)
      → Tracks online p
      → Tracks (online_after (logout id) online) (track_logout id p)
  unfolding online_after track_logout should_track_online_device is_clone_client is_web_client
      is_temporary_controller_id
  logout-Tracks id online p v = record {
    devices = λ x. ground (
      arith,
      same_class id x "web-",
      same_class id x "cli-",
      same_class id x "C-",
      v.devices x,
      contains-remove id p.online_devices x,
    );
    web = λ x.
        ground (arith, same_class id x "web-", v.web x, contains-remove id p.online_web_clients x);
    cli = λ x. ground (
      arith,
      same_class id x "web-",
      same_class id x "cli-",
      v.cli x,
      contains-remove id p.online_cli_clients x,
    );
  }

  Tracks-if :
      (test : Bool) (online : String → Bool) (p q : Presence D)
      → Tracks online p
      → Tracks online q
      → Tracks online (if test then p else q)
  Tracks-if true online p q v w = v
  Tracks-if false online p q v w = w

  -- The sets of online ids are all that matters.
  Tracks-same :
      (online : String → Bool) (p : Presence D) (db : Option D)
      (associations : Assoc String (List String)) (sent : List (String × Update))
      → Tracks online p
      → Tracks online (record p { db = db; associations = associations; sent = sent })
  Tracks-same online p db associations sent v = record {
    devices = v.devices;
    web = v.web;
    cli = v.cli;
  }

module _ {D : Type 0} (database : Database D) where
  notify-Tracks :
      (now : String → Bool) (p : Presence D) (id : String) (online : Bool)
      → Tracks now p
      → Tracks now (notify_user_devices database p id online)
  unfolding notify_user_devices
  notify-Tracks now p id online v =
      Tracks-if _ now p _ v (Tracks-same now p p.db p.associations _ v)

  watched-Tracks :
      (user : String) (ids : List String) (replace : Bool) (online : String → Bool) (p : Presence D)
      → Tracks online p
      → Tracks
          (online_after (watched user ids replace) online)
          (perform database (watched user ids replace) p)
  unfolding perform update_user_devices online_after
  watched-Tracks user ids replace online p v = record {
    devices = v.devices;
    web = v.web;
    cli = v.cli;
  }

  perform-Tracks :
      (call : Call) (online : String → Bool) (p : Presence D)
      → Tracks online p
      → Tracks (online_after call online) (perform database call p)
  unfolding perform on_login on_logout update_user_devices forget_offline_device_data
  perform-Tracks (login id) online p v =
      notify-Tracks _ _ id true
        (Tracks-same _ (track_login id p) _ _ _ (login-Tracks id online p v))
  perform-Tracks (logout id) online p v =
      let t : Presence D = track_logout id (record p { associations = erase id p.associations }) in
      let off : Presence D = record t { db = set_online database id false t.db } in
      let told : Presence D =
        if not (id == "") then notify_user_devices database off id false else off in
      let after : String → Bool = online_after (logout id) online in
      let v_t : Tracks after t =
        logout-Tracks id online _ (Tracks-same online p p.db (erase id p.associations) p.sent v) in
      let v_off : Tracks after off = Tracks-same after t off.db t.associations t.sent v_t in
      let v_told : Tracks after told =
        Tracks-if (not (id == "")) after (notify_user_devices database off id false) off
          (notify-Tracks after off id false v_off) v_off in
      Tracks-if (is_temporary_controller_id id) after (forget_offline_device_data told id) told
        (Tracks-same after told told.db (forget_offline_device_data told id).associations told.sent
          v_told)
        v_told
  perform-Tracks (watched user ids replace) online p v = watched-Tracks user ids replace online p v

  -- After any sequence of logins, logouts and watch lists, the sets of devices, web clients and
  -- command-line clients hold exactly the ids of their class whose last login or logout was a
  -- login, or that were online before and had none.
  pub perform_all-Tracks :
      (calls : List Call) (online : String → Bool) (p : Presence D)
      → Tracks online p
      → Tracks (online_after_all calls online) (perform_all database calls p)
  unfolding perform_all online_after_all
  perform_all-Tracks [] online p v = v
  perform_all-Tracks (call ∷ calls) online p v =
      perform_all-Tracks calls (online_after call online) (perform database call p)
        (perform-Tracks call online p v)
