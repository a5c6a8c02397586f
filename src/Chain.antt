-- ===== src/Chain.antt =====
-- daemon/src/chain.c: a tunnel through a chain of proxies over one socket.
pub mod Http
pub mod Open
pub mod Ssh
use proxiflare.Prelude.{
  ℕ, zero, suc, ◌+◌, Bool, true, false, not, ◌&&◌, Option, none, some, List, [], ◌∷◌, ◌==◌, leb,
  if◌then◌else◌, Bytes, length,
}
use proxiflare.Types.{Proxy, socks4, socks5, http, ssh, ProxyType, Chain}
use proxiflare.Net.{Conn, Res, ok, fail, M, ◌>>=◌, ◌>>◌, ret, abort, require}
use proxiflare.Socks.{
  Tunnel, refused, closed, connected, close_on_failure, text, ulen, plen, port_valid, buf_size,
  socks5_handshake, socks4_handshake,
}
use Http.{http_negotiate}

-- PF_MAX_HOPS
abbrev pub max_hops : ℕ
max_hops = 8

-- `proxy->username[0] ? proxy->username : NULL`
abbrev pub optional : Bytes → Option Bytes
optional [] = none
optional (x ∷ s) = some (x ∷ s)

unfoldable pub find_proxy : List Proxy → ℕ → Option Proxy
find_proxy [] id = none
find_proxy (p ∷ ps) id = let rest = find_proxy ps id in if p.id == id then some p else rest

module _ (accepts : ℕ → ℕ) where
  -- The steps behind the checks are, statement by statement, those of `pf_socks5_connect`.
  unfoldable pub socks5_negotiate : Bytes → ℕ → Option Bytes → Option Bytes → M (Unit {0})
  unfolding socks5_handshake
  socks5_negotiate dst_host dst_port username password = do
    require (port_valid dst_port)
    require (leb (length dst_host) 255)
    require (leb (ulen username) 255 && leb (plen username password) 255)
    socks5_handshake accepts dst_host dst_port username password

  unfoldable pub socks4_negotiate : Bytes → ℕ → Option Bytes → M (Unit {0})
  unfolding socks4_handshake
  socks4_negotiate dst_host dst_port userid = do
    require (port_valid dst_port)
    require (leb (8 + length (text userid) + 1 + length dst_host + 1) buf_size)
    socks4_handshake accepts dst_host dst_port userid

  -- The negotiator for the type of the proxy.
  unfoldable pub negotiate_as : ProxyType → Proxy → Bytes → ℕ → M (Unit {0})
  unfolding socks5_negotiate socks4_negotiate http_negotiate
  negotiate_as socks5 p next_host next_port =
      socks5_negotiate next_host next_port (optional p.username) (optional p.password)
  negotiate_as socks4 p next_host next_port =
      socks4_negotiate next_host next_port (optional p.username)
  negotiate_as http p next_host next_port =
      http_negotiate accepts next_host next_port (optional p.username) (optional p.password)
  negotiate_as ssh p next_host next_port = abort

  unfoldable pub negotiate_hop : Proxy → Bytes → ℕ → M (Unit {0})
  unfolding negotiate_as
  negotiate_hop p = negotiate_as p.type p

  -- Steps 2 to N: hop i is asked for hop i + 1, and the last one for the destination.
  unfoldable pub negotiate_all : Proxy → List Proxy → Bytes → ℕ → M (Unit {0})
  unfolding negotiate_hop
  negotiate_all p [] dst_host dst_port = negotiate_hop p dst_host dst_port
  negotiate_all p (q ∷ qs) dst_host dst_port = do
    negotiate_hop p q.host q.port
    negotiate_all q qs dst_host dst_port

-- All hops are looked up before a socket is opened; `none` for an unknown id.
unfoldable pub hop_proxies : List Proxy → List ℕ → Option (List Proxy)
unfolding find_proxy
hop_proxies proxies [] = some []
hop_proxies proxies (id ∷ ids) = elim (find_proxy proxies id) [
  | none ↦ none
  | some p ↦ elim (hop_proxies proxies ids) [ none ↦ none | some ps ↦ some (p ∷ ps) ]
]

-- An SSH hop is turned away before its host is dialled.
abbrev pub unless_ssh : ProxyType → Tunnel → Tunnel
unless_ssh ssh t = refused
unless_ssh _ t = t

-- First hop on; `dial` is `tcp_connect` to its host and port.
unfoldable pub connect_hops : (ℕ → ℕ) → (Bytes → ℕ → Option Conn) → List Proxy → Bytes → ℕ → Tunnel
unfolding negotiate_all
connect_hops accepts dial [] dst_host dst_port = refused
connect_hops accepts dial (p ∷ ps) dst_host dst_port =
    unless_ssh p.type (elim (dial p.host p.port) [
      | none ↦ refused
      | some c ↦ close_on_failure (negotiate_all accepts p ps dst_host dst_port c)
    ])

unfoldable pub chain_connect :
    (ℕ → ℕ) → (Bytes → ℕ → Option Conn) → Chain → List Proxy → Bytes → ℕ → Tunnel
unfolding hop_proxies connect_hops
chain_connect accepts dial chain proxies dst_host dst_port =
    if not (leb 1 (length chain.hops) && leb (length chain.hops) max_hops)
    then refused
    else if not (port_valid dst_port)
    then refused
    else elim (hop_proxies proxies chain.hops) [
      | none ↦ refused
      | some ps ↦ connect_hops accepts dial ps dst_host dst_port
    ]
