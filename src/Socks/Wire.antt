-- ===== src/Socks/Wire.antt =====
-- The SOCKS messages as RFC 1928, RFC 1929 and SOCKS4a describe them.
use proxiflare.Prelude.{ℕ, ◌/◌, ◌%◌, ◌≤◌, ◌<◌, ◌≡◌, ◌≢◌, Option, [], ◌∷◌, ◌++◌, Bytes, length}
use proxiflare.Socks.{text}

-- A proxy's answer to the greeting and to the credentials.
pub data Login : Type 0 where
  anonymous : Login
  password : ℕ → Login

-- The bound address with its port.
pub data Bound : Type 0 where
  ip4 : Bytes → Bound
  ip6 : Bytes → Bound
  name : Bytes → Bytes → Bound

pub record Reply : Type 0 where
  pub login : Login
  pub version : ℕ
  pub reserved : ℕ
  pub bound : Bound

abbrev pub login_bytes : Login → Bytes
login_bytes anonymous = 0x05 ∷ 0x00 ∷ []
login_bytes (password v) = 0x05 ∷ 0x02 ∷ v ∷ 0x00 ∷ []

abbrev pub bound_bytes : Bound → Bytes
bound_bytes (ip4 b) = 0x01 ∷ b
bound_bytes (ip6 b) = 0x04 ∷ b
bound_bytes (name n port) = 0x03 ∷ length n ∷ (n ++ port)

abbrev pub reply_bytes : Reply → Bytes
reply_bytes r = login_bytes r.login ++ (r.version ∷ 0x00 ∷ r.reserved ∷ bound_bytes r.bound)

-- The sizes of the addresses; the port takes two bytes.
abbrev pub IsBound : Bound → Type 0
IsBound (ip4 b) = length b ≡ 6
IsBound (ip6 b) = length b ≡ 18
IsBound (name n port) = (length n < 256) × (length port ≡ 2)

-- A username and a password that RFC 1929 can carry; an empty username is none.
abbrev pub AreValid : Option Bytes → Option Bytes → Type 0
AreValid user pass = (length (text user) ≤ 255) × (length (text pass) ≤ 255)

-- The proxy asks for a password only of a client that has offered one.
abbrev pub Offered : Option Bytes → Login → Type 0
Offered user anonymous = Unit
Offered user (password v) = text user ≢ []

abbrev pub greeting_for : Bytes → Bytes
greeting_for [] = 0x05 ∷ 0x01 ∷ 0x00 ∷ []
greeting_for (x ∷ user) = 0x05 ∷ 0x02 ∷ 0x00 ∷ 0x02 ∷ []

abbrev pub greeting : Option Bytes → Bytes
greeting user = greeting_for (text user)

-- What the client says to a proxy that answers with `login`.
abbrev pub login_sent : Option Bytes → Option Bytes → Login → Bytes
login_sent user pass anonymous = []
login_sent user pass (password v) =
    0x01 ∷ length (text user) ∷ (text user ++ (length (text pass) ∷ text pass))

abbrev pub connect_request : Bytes → ℕ → Bytes
connect_request host port =
    0x05 ∷ 0x01 ∷ 0x00 ∷ 0x03 ∷ length host ∷ (host ++ (port / 256 ∷ port % 256 ∷ []))

abbrev pub socks4_request : Bytes → ℕ → Option Bytes → Bytes
socks4_request host port userid =
    0x04
    ∷ 0x01
    ∷ port / 256
    ∷ port % 256
    ∷ 0x00
    ∷ 0x00
    ∷ 0x00
    ∷ 0x01
    ∷ (text userid ++ (0x00 ∷ (host ++ (0x00 ∷ []))))
