-- ===== src/Transmission/State.antt =====
-- The state of TransmissionManager, its scoped lock and its queue of notifications.
-- A `connection_hdl` is the identity of its control block, 0 for the empty handle. `delivered`
-- lists the callbacks run so far; an exception inside a scope, which drops them, is not modelled.
use crossdesk_server.Common.{
  ℕ, suc, ◌-◌, String, Bool, false, ◌&&◌, ◌||◌, not, List, [], ◌∷◌, ◌++◌, ltb, ◌==◌, if◌then◌else◌,
  nat_key, string_key, Assoc,
}

abbrev pub Handle : Type 0
Handle = ℕ

pub data Note : Type 0 where
  remote_control : String → String → String → Bool → Note
  session_timeout : Handle → String → Note

pub record Manager : Type 0 where
  pub hosts : Assoc String String
  pub guests : Assoc String (List String)
  pub grants : Assoc String (Assoc String Handle)
  pub routes : Assoc String Handle
  pub users : Assoc Handle String
  pub devices : Assoc Handle String
  pub last_active : Assoc Handle ℕ
  pub remote_callback : Bool
  pub timeout_callback : Bool
  pub lock_depth : ℕ
  pub pending : List Note
  pub delivered : List Note

abbrev pub new_manager : Manager
new_manager = record {
  hosts = [];
  guests = [];
  grants = [];
  routes = [];
  users = [];
  devices = [];
  last_active = [];
  remote_callback = false;
  timeout_callback = false;
  lock_depth = 0;
  pending = [];
  delivered = [];
}

-- std::owner_less
pub owner_less : Handle → Handle → Bool
owner_less a b = ltb a b

pub has_connection_owner : Handle → Bool
unfolding owner_less
has_connection_owner h = owner_less h 0 || owner_less 0 h

unfoldable pub same_connection : Handle → Handle → Bool
unfolding has_connection_owner owner_less
same_connection lhs rhs =
    if not (has_connection_owner lhs) || not (has_connection_owner rhs)
    then false
    else not (owner_less lhs rhs) && not (owner_less rhs lhs)

unfoldable pub has_user_connection : Assoc Handle String → String → Bool
has_user_connection [] user_id = false
has_user_connection ((h, u) ∷ users) user_id = u == user_id || has_user_connection users user_id

-- StateLock: the constructor and the destructor. The outermost scope runs the notifications.
abbrev pub enter : Manager → Manager
enter s = record s { lock_depth = suc s.lock_depth }

abbrev pub leave : Manager → Manager
leave s =
    let depth = s.lock_depth - 1 in
    record s {
      lock_depth = depth;
      delivered = s.delivered ++ (if depth == 0 then s.pending else []);
      pending = if depth == 0 then [] else s.pending;
    }

abbrev pub scoped {ℓ} : {A : Type ℓ} → (Manager → Manager × A) → Manager → Manager × A
scoped body s = let r = body (enter s) in (leave r.0, r.1)

-- NotifyRemoteControl
abbrev pub notify_remote_control : Manager → String → String → String → Bool → Manager
notify_remote_control s transmission_id host_id guest_id started = record s {
  pending =
      s.pending
      ++ (if s.remote_callback
          then remote_control transmission_id host_id guest_id started ∷ []
          else []);
}

unfoldable pub set_remote_control_session_callback : Manager → Bool → Manager
set_remote_control_session_callback s callback = record s { remote_callback = callback }

unfoldable pub set_session_timeout_callback : Manager → Bool → Manager
set_session_timeout_callback s callback = record s { timeout_callback = callback }
