-- ===== src/Negotiation/DeviceLogin/Examples.antt =====
-- Tests of logins by device key: a third connection of the test room asks for a challenge for the
-- id "desk", and answers it.
use crossdesk_server.Common.{
  ◌*◌, String, List, ◌≡◌, ◌⊎◌, refl, true, false, some, [], ◌∷◌, find, set, set_ordered, erase,
  split_at_sign, has_text, string_key, nat_key, arith,
}
use crossdesk_server.Identity.{is_temporary_controller_id, is_temporary_controller_registration}
use crossdesk_server.AuthLimiter.Bucket.{second}
use crossdesk_server.Transmission.Connections.{get_user_id, bind_user_to_ws_handle}
use crossdesk_server.Negotiation.Json.{Value, string, integer, Object, nothing, member}
use crossdesk_server.Negotiation.State.{Environment}
use crossdesk_server.Negotiation.Login.{complete_login}
use crossdesk_server.Negotiation.Handlers.{done, completed}
use crossdesk_server.Negotiation.DeviceLogin.Request.{
  KeyRequest, hex, device_of, field, size, parse_request,
}
use crossdesk_server.Negotiation.DeviceLogin.{
  KeyLibrary, KeyState, is_proof, is_verified, login_with_key,
}
use crossdesk_server.Negotiation.DeviceLogin.Challenges.{AreManaged, login_with_key-AreManaged}
use crossdesk_server.Negotiation.DeviceLogin.Proof.{Proved, login_with_key-Proved}
use crossdesk_server.Negotiation.Fixture.{test_environment, negotiation}

abbrev key : String
key = "0123456789abcdef0123456789abcdef0123456789abcdef0123456789abcdef"

-- Every signature of the right form is the owner's.
abbrev library : KeyLibrary
library = record { nonce = "n"; is_signed = λ public_key signature transcript. true }

abbrev keyed_environment : Environment (List String) String
keyed_environment = record test_environment {
  database = record test_environment.database { read_login_public_key = λ d id. some key };
}

abbrev asked : Object
asked =
    ("user_id", string "desk")
    ∷ (
      "device_key",
      Value.object (member "version" (integer 1) (member "public_key" (string key) nothing)),
    )
    ∷ []

abbrev answered : Object
answered =
    ("user_id", string "desk")
    ∷ (
      "device_key",
      Value.object (
          member "version" (integer 1) (
            member "public_key" (string key) (
              member "nonce" (string "n") (
                member "signature"
                  (string
                    "0123456789abcdef0123456789abcdef0123456789abcdef0123456789abcdef0123456789abcdef0123456789abcdef0123456789abcdef0123456789abcdef")
                  nothing)))),
    )
    ∷ []

abbrev fresh : KeyState (List String)
fresh = record {
  keys = record {
    challenges = [];
    next_cleanup = 0;
    limiter = record { source_limit = 120; next_cleanup = 0; sources = [] };
  };
  base = negotiation;
}

abbrev waiting : KeyState (List String)
waiting = record fresh {
  keys = record fresh.keys {
    challenges =
        (3, record { id = "desk"; public_key = key; nonce = "n"; expires = 10 * second }) ∷ [];
  };
}

accepted : (login_with_key keyed_environment library waiting 3 answered "10.0.0.1").1 ≡ done true
unfolding login_with_key parse_request find split_at_sign has_text hex field size device_of
    is_temporary_controller_id is_temporary_controller_registration erase complete_login get_user_id
    bind_user_to_ws_handle set_ordered set is_proof is_verified completed
accepted = refl

-- The answer cannot be sent twice.
replayed : (login_with_key keyed_environment library fresh 3 answered "10.0.0.1").1 ≡ done false
unfolding login_with_key parse_request find split_at_sign has_text hex field size device_of
    is_temporary_controller_id is_temporary_controller_registration
replayed = refl

login_with_key-Proved_example :
    let u = login_with_key keyed_environment library waiting 3 answered "10.0.0.1" in
    (u.1 ≡ done false)
    ⊎ ((r : KeyRequest) × ((parse_request answered "10.0.0.1" ≡ some r)
          × Proved keyed_environment library waiting 3 r u))
login_with_key-Proved_example =
    login_with_key-Proved keyed_environment library 3 waiting answered "10.0.0.1"

-- Another connection asks while one has a challenge.
login_with_key-AreManaged_example :
    AreManaged keyed_environment library 4 waiting
      (login_with_key keyed_environment library waiting 4 asked "10.0.0.1").0
login_with_key-AreManaged_example =
    login_with_key-AreManaged keyed_environment library 4 waiting asked "10.0.0.1"
      (record { increasing = (tt, tt); bounded = omega arith })
