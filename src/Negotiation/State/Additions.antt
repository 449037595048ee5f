-- ===== src/Negotiation/State/Additions.antt =====
-- What the additions to a message leave as it was.
use crossdesk_server.Common.{
  String, ◌≡◌, refl, false, Option, none, some, [], ◌∷◌, ◌==◌, string_key, find, set, find-set,
  arith, Bool-cases, inl, inr,
}
use crossdesk_server.Negotiation.Json.{Value, Object, Members}
use crossdesk_server.Negotiation.State.{
  Environment, copy_optional_ice_ufrag, with_ufrag, add_connection_ice_config, add_turn_credentials,
  merged, turn_for, copied_turn, connection_ice,
}

find-with_ufrag :
    (key : String) (field : Option Value) (message extended : Object)
    → (key == "ufrag") ≡ false
    → with_ufrag field message ≡ some extended
    → find key extended ≡ find key message
unfolding with_ufrag
find-with_ufrag key none message extended k h = ground arith
find-with_ufrag key (some (Value.string ufrag)) message extended k h = ground (
  arith,
  find-set "ufrag" key (Value.string ufrag) message,
  string_key.beq_iff key "ufrag",
  string_key.beq_iff "ufrag" key,
)
find-with_ufrag key (some other) message extended k h = ground arith

pub find-copy_ufrag :
    (key : String) (source message extended : Object)
    → (key == "ufrag") ≡ false
    → copy_optional_ice_ufrag source message ≡ some extended
    → find key extended ≡ find key message
unfolding copy_optional_ice_ufrag
find-copy_ufrag key source message extended k h =
    find-with_ufrag key (find "ufrag" source) message extended k h

-- The configuration that the issuer makes has no such member.
abbrev pub LacksMember : {D R : Type 0} → Environment D R → String → Type 0
LacksMember env key =
    (issue : String → Object)
    → env.ice_config ≡ some issue
    → (user_id : String) → find key (issue user_id) ≡ none

find-merged :
    (key : String) (config message : Object)
    → find key config ≡ none
    → find key (merged message config) ≡ find key message
unfolding merged find
find-merged key [] message h = refl
find-merged key ((k, v) ∷ rest) message h =
    ground (arith, find-merged key rest (set k v message), find-set k key v message)

find-set_turn :
    (key : String) (turn : Value) (message : Object)
    → (key == "turn") ≡ false
    → find key (set "turn" turn message) ≡ find key message
find-set_turn key turn message k = ground (
  arith,
  find-set "turn" key turn message,
  string_key.beq_iff key "turn",
  string_key.beq_iff "turn" key,
)

find-turn_for :
    (key : String) (config : Option (String → Object)) (issuer : Option (String → Members))
    (message : Object) (user_id : String)
    → (key == "turn") ≡ false
    → find key (turn_for config issuer message user_id).0 ≡ find key message
unfolding turn_for
find-turn_for key none none message user_id k = refl
find-turn_for key none (some issue) message user_id k = find-set_turn key _ message k
find-turn_for key (some config) issuer message user_id k =
    find-copied_turn (find "turn" (config user_id))
  where
    find-copied_turn :
        (turn : Option Value) → find key (copied_turn turn message).0 ≡ find key message
    find-copied_turn none = refl
    find-copied_turn (some turn) = find-set_turn key turn message k

module _ {D R : Type 0} (env : Environment D R) where
  find-turn_credentials :
      (key : String) (message : Object) (user_id : String)
      → (key == "turn") ≡ false
      → find key (add_turn_credentials env message user_id).0 ≡ find key message
  unfolding add_turn_credentials
  find-turn_credentials key message user_id k = elim (Bool-cases (user_id == "")) [
    | inl e ↦ rw e refl
    | inr e ↦ rw e (find-turn_for key env.ice_config env.turn_credentials message user_id k)
  ]

  find-connection_ice :
      (key : String) (config : Option (String → Object)) (message : Object) (user_id : String)
      → env.ice_config ≡ config
      → LacksMember env key
      → (key == "turn") ≡ false
      → find key (connection_ice env config message user_id) ≡ find key message
  unfolding connection_ice
  find-connection_ice key none message user_id e l k = find-turn_credentials key message user_id k
  find-connection_ice key (some issue) message user_id e l k =
      find-merged key (issue user_id) message (l issue e user_id)

  pub find-connection_ice_config :
      (key : String) (message : Object) (user_id : String)
      → LacksMember env key
      → (key == "turn") ≡ false
      → find key (add_connection_ice_config env message user_id) ≡ find key message
  unfolding add_connection_ice_config
  find-connection_ice_config key message user_id l k =
      find-connection_ice key env.ice_config message user_id refl l k
