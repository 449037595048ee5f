-- ===== src/SessionRecovery/State.antt =====
-- The collaborators of class SessionRecovery, its tickets and its state. The database is a record of
-- the statements that the class runs, and `threw` is a std::runtime_error, which no caller catches.
use crossdesk_server.Common.{
  ℕ, String, ◌≡◌, refl, subst, Bool, true, false, if◌then◌else◌, Option, List, ◌∷◌, [], ◌++◌, Assoc,
}
use crossdesk_server.Transmission.State.{Handle, Manager}
use crossdesk_server.Negotiation.Json.{Value, Object}

pub data Result {ℓ} (A : Type ℓ) : Type ℓ where
  ok : A → Result A
  threw : Result A

infixl 5 ◌>>=◌
abbrev pub ◌>>=◌ {ℓ κ} : {A : Type ℓ} {B : Type κ} → Result A → (A → Result B) → Result B
ok a >>= f = f a
threw >>= f = threw

-- What holds of the value of a result, if it has one.
abbrev pub Ensures {ℓ κ} : {A : Type ℓ} → (A → Type κ) → Result A → Type κ
Ensures P (ok a) = P a
Ensures P threw = Unit

pub Ensures->>= {ℓ κ μ ν} :
    {A : Type ℓ} {B : Type κ} (P : A → Type μ) (Q : B → Type ν) (m : Result A) (f : A → Result B)
    → Ensures P m
    → ((a : A) → P a → Ensures Q (f a))
    → Ensures Q (m >>= f)
Ensures->>= P Q (ok a) f p k = k a p
Ensures->>= P Q threw f p k = tt

-- The step after a call, with what the call gave.
pub Ensures-after {ℓ κ μ} :
    {A : Type ℓ} {B : Type κ} (Q : B → Type μ) (m : Result A) (f : A → Result B)
    → ((a : A) → m ≡ ok a → Ensures Q (f a))
    → Ensures Q (m >>= f)
Ensures-after Q (ok a) f k = k a refl
Ensures-after Q threw f k = tt

pub Ensures-weaken {ℓ κ μ} :
    {A : Type ℓ} (P : A → Type κ) (Q : A → Type μ) (m : Result A)
    → ((a : A) → P a → Q a)
    → Ensures P m
    → Ensures Q m
Ensures-weaken P Q (ok a) k p = k a p
Ensures-weaken P Q threw k p = tt

pub if-Ensures {ℓ κ} :
    {A : Type ℓ} (P : A → Type κ) (b : Bool) (m n : Result A)
    → (b ≡ true → Ensures P m)
    → (b ≡ false → Ensures P n)
    → Ensures P (if b then m else n)
if-Ensures P true m n k l = k refl
if-Ensures P false m n k l = l refl

pub ok-Ensures {ℓ κ} :
    {A : Type ℓ} (P : A → Type κ) (m : Result A) (a : A) → m ≡ ok a → Ensures P m → P a
ok-Ensures P (ok b) a e p = subst P (cc) p
ok-Ensures P threw a e p = absurd (cc)

abbrev pub SessionKey : Type 0
SessionKey = String × String

pub record Ticket : Type 0 where
  pub tx : String
  pub host : String
  pub guest : String
  pub token : String
  pub host_ready : Bool
  pub guest_ready : Bool
  pub recovering : Bool
  pub deadline : ℕ
  pub host_hdl : Handle
  pub guest_hdl : Handle

abbrev pub session_of : Ticket → SessionKey
session_of ticket = (ticket.tx, ticket.guest)

-- A row of a query; a legacy session has no token.
pub record Row : Type 0 where
  pub tx : String
  pub host : String
  pub guest : String
  pub token : String

-- The statements of the class, and the two calls that it makes of DeviceDBManager.
pub record SessionStore (D : Type 0) : Type 0 where
  pub save : D → Row → Result D
  pub exists : D → Row → Result Bool
  pub remove : D → SessionKey → Result D
  pub count : D → Result ℕ
  pub start_remote_control_session : D → String → String → String → D × Bool
  pub end_remote_control_session : D → String → String → String → D × Bool

-- `now` is in seconds. `is_one` tells what the JSON library finds equal to 1, and `token` are 32
-- random bytes in hexadecimal.
pub record RecoveryEnvironment (D : Type 0) : Type 0 where
  pub expired : Handle → Bool
  pub now : ℕ
  pub store : SessionStore D
  pub is_one : Value → Bool
  pub token : Option String

pub record Recovery (D : Type 0) : Type 0 where
  pub manager : Manager
  pub db : D
  pub tickets : Assoc SessionKey Ticket
  pub legacy : Assoc SessionKey Ticket
  pub capable : Assoc Handle Bool
  pub sent : List (Handle × Object)

abbrev pub send : {D : Type 0} → Recovery D → Handle → Object → Recovery D
send s hdl message = record s { sent = s.sent ++ (hdl, message) ∷ [] }

-- The columns of a ticket.
abbrev pub row_of : Ticket → Row
row_of ticket = record {
  tx = ticket.tx;
  host = ticket.host;
  guest = ticket.guest;
  token = ticket.token;
}
