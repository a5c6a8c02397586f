-- ===== src/Socks.antt =====
-- daemon/src/proxy_socks.c: the SOCKS4a and SOCKS5 client handshakes, on a proxy that is reached by
-- a fresh connection. A C string that may be NULL is an Option.
pub mod Wire
pub mod Open
use proxiflare.Prelude.{
  ℕ, ◌+◌, ◌/◌, ◌%◌, Bool, true, false, not, ◌&&◌, Option, none, some, List, [], ◌∷◌, ◌++◌, ◌==◌,
  leb, if◌then◌else◌, Bytes, length, get_or,
}
use proxiflare.Net.{Conn, Res, ok, fail, M, ◌>>=◌, ◌>>◌, ret, abort, require, recv_all, send_all}

abbrev pub text : Option Bytes → Bytes
text none = []
text (some s) = s

-- PF_BUF_SIZE
abbrev pub buf_size : ℕ
buf_size = 8192

-- `username && username[0] != 0`
abbrev pub has_auth : Option Bytes → Bool
has_auth username = not (length (text username) == 0)

abbrev pub ulen : Option Bytes → ℕ
ulen username = if has_auth username then length (text username) else 0

abbrev pub plen : Option Bytes → Option Bytes → ℕ
plen username password = if has_auth username then length (text password) else 0

abbrev pub port_valid : ℕ → Bool
port_valid p = leb 1 p && leb p 65535

-- What a handshake leaves of the descriptor: none was opened, it was closed, or it is handed over.
pub data Tunnel : Type 0 where
  refused : Tunnel
  closed : Conn → Tunnel
  connected : Conn → Tunnel

abbrev pub close_on_failure : Res (Unit {0}) × Conn → Tunnel
close_on_failure (ok u, c) = connected c
close_on_failure (fail, c) = closed c

-- What steps 1, 2 and 3 build in `buf`.
unfoldable pub greeting_message : Option Bytes → Bytes
greeting_message username =
    0x05 ∷ (if has_auth username then 0x02 ∷ 0x00 ∷ 0x02 ∷ [] else 0x01 ∷ 0x00 ∷ [])

unfoldable pub auth_message : Option Bytes → Option Bytes → Bytes
auth_message username password =
    0x01
    ∷ ulen username % 256
    ∷ (text username
        ++ (plen username password % 256
            ∷ (if plen username password == 0 then [] else text password)))

unfoldable pub request_message : Bytes → ℕ → Bytes
request_message dst_host dst_port =
    0x05
    ∷ 0x01
    ∷ 0x00
    ∷ 0x03
    ∷ length dst_host % 256
    ∷ (dst_host ++ (dst_port / 256 % 256 ∷ dst_port % 256 ∷ []))

-- The address length that ATYP announces.
unfoldable pub bound_length : ℕ → M ℕ
bound_length atyp =
    if atyp == 0x01
    then ret 4
    else if atyp == 0x04
    then ret 16
    else if atyp == 0x03
    then (do d ← recv_all 1; ret (get_or d 0 0))
    else abort

-- Step 5: the bound address and port are read and dropped.
unfoldable pub drain_bound : ℕ → M (Unit {0})
unfolding bound_length
drain_bound atyp = do addr_len ← bound_length atyp; _ ← recv_all (addr_len + 2); ret tt

-- Steps 4 and 5.
unfoldable pub read_reply : M (Unit {0})
unfolding drain_bound
read_reply = do resp ← recv_all 4; require (get_or resp 1 0 == 0x00); drain_bound (get_or resp 3 0)

module _ (accepts : ℕ → ℕ) where
  -- Step 2: username and password (RFC 1929), if the proxy chose that method.
  unfoldable pub authenticate : ℕ → Option Bytes → Option Bytes → M (Unit {0})
  authenticate method username password =
      if method == 0x02
      then (do
        require (has_auth username)
        send_all accepts (auth_message username password)
        resp ← recv_all 2
        require (get_or resp 1 0 == 0x00))
      else ret tt

  -- Steps 1 to 5 of `pf_socks5_connect`, after the connection to the proxy.
  unfoldable pub socks5_handshake : Bytes → ℕ → Option Bytes → Option Bytes → M (Unit {0})
  unfolding authenticate read_reply
  socks5_handshake dst_host dst_port username password = do
    send_all accepts (greeting_message username)
    chosen ← recv_all 2
    require (get_or chosen 0 0 == 0x05)
    require (not (get_or chosen 1 0 == 0xFF))
    authenticate (get_or chosen 1 0) username password
    send_all accepts (request_message dst_host dst_port)
    read_reply

  -- `pf_socks5_connect`; `dial` is the result of `tcp_connect` to the proxy.
  unfoldable pub socks5_connect : Option Conn → Bytes → ℕ → Option Bytes → Option Bytes → Tunnel
  unfolding socks5_handshake
  socks5_connect dial dst_host dst_port username password =
      if not (port_valid dst_port)
      then refused
      else if not (leb (length dst_host) 255)
      then refused
      else if not (leb (ulen username) 255 && leb (plen username password) 255)
      then refused
      else elim dial [
        | none ↦ refused
        | some c ↦ close_on_failure (socks5_handshake dst_host dst_port username password c)
      ]

  unfoldable pub socks4_handshake : Bytes → ℕ → Option Bytes → M (Unit {0})
  socks4_handshake dst_host dst_port userid = do
    send_all accepts (
        0x04
        ∷ 0x01
        ∷ dst_port / 256 % 256
        ∷ dst_port % 256
        ∷ 0x00
        ∷ 0x00
        ∷ 0x00
        ∷ 0x01
        ∷ (text userid ++ (0x00 ∷ (dst_host ++ (0x00 ∷ [])))))
    resp ← recv_all 8
    require (get_or resp 1 0 == 0x5A)

  unfoldable pub socks4_connect : Option Conn → Bytes → ℕ → Option Bytes → Tunnel
  unfolding socks4_handshake
  socks4_connect dial dst_host dst_port userid =
      if not (port_valid dst_port)
      then refused
      else if not (leb (8 + length (text userid) + 1 + length dst_host + 1) buf_size)
      then refused
      else elim dial [
        | none ↦ refused
        | some c ↦ close_on_failure (socks4_handshake dst_host dst_port userid c)
      ]
