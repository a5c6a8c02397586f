-- ===== src/Chain/Open.antt =====
-- `pf_chain_connect` through proxies that all grant their connection.
use proxiflare.Prelude.{
  ℕ, ◌+◌, ◌≤◌, ◌<◌, ◌≡◌, ◌≢◌, refl, ◌∙◌, true, ◌&&◌, Option, some, List, [], ◌∷◌, ◌++◌, leb, Bytes,
  length, arith, le→leb,
}
use mathlib.Core.List.{append_assoc}
use proxiflare.Types.{Proxy, ProxyType, socks4, socks5, http, ssh, Chain}
use proxiflare.Net.{Conn, M}
use proxiflare.Net.Loops.{stream}
use proxiflare.Net.Done.{Done, bind-Done, require-step}
use proxiflare.Socks.{Tunnel, connected, close_on_failure, text, ulen, plen, port_valid, buf_size}
use proxiflare.Socks.Wire.{
  Reply, reply_bytes, IsBound, AreValid, Offered, greeting, login_sent, connect_request,
  socks4_request,
}
use proxiflare.Socks.Open.{socks5_handshake-Done, socks4_handshake-Done}
use proxiflare.Chain.{
  optional, max_hops, negotiate_as, negotiate_hop, negotiate_all, hop_proxies, connect_hops,
  chain_connect, unless_ssh,
}

-- How a hop grants its connection: a SOCKS5 reply, or a SOCKS4 version byte and address.
pub data Answer : Type 0 where
  five : Reply → Answer
  four : ℕ → Bytes → Answer

abbrev pub answer_bytes : Answer → Bytes
answer_bytes (five r) = reply_bytes r
answer_bytes (four v address) = v ∷ 0x5A ∷ address

abbrev pub IsPort : ℕ → Type 0
IsPort p = (1 ≤ p) × (p ≤ 65535)

-- The hop is of the type that gives the answer, and what it is asked for can be said to it.
abbrev pub GrantsAs : ProxyType → Proxy → Answer → Bytes → Type 0
GrantsAs socks5 p (five r) host =
    (length host ≤ 255)
    × AreValid (optional p.username) (optional p.password)
    × Offered (optional p.username) r.login
    × IsBound r.bound
GrantsAs socks4 p (four v address) host =
    (length address ≡ 6)
    × (8 + length (text (optional p.username)) + 1 + length host + 1 ≤ buf_size)
GrantsAs _ p _ host = ⊥

abbrev pub Grants : Proxy → Answer → Bytes → ℕ → Type 0
Grants p a host port = GrantsAs p.type p a host × IsPort port

-- What the daemon says to the hop.
abbrev pub said : Proxy → Answer → Bytes → ℕ → Bytes
said p (five r) host port =
    greeting (optional p.username)
    ++ (login_sent (optional p.username) (optional p.password) r.login ++ connect_request host port)
said p (four v address) host port = socks4_request host port (optional p.username)

-- Each hop grants the way to the next, and the last one the way to the destination.
abbrev pub AllGrant : Proxy → List Proxy → List Answer → Bytes → ℕ → Type 0
AllGrant p [] (a ∷ []) host port = Grants p a host port
AllGrant p (q ∷ qs) (a ∷ as') host port = Grants p a q.host q.port × AllGrant q qs as' host port
AllGrant p _ _ host port = ⊥

abbrev pub all_said : Proxy → List Proxy → List Answer → Bytes → ℕ → Bytes
all_said p [] (a ∷ as') host port = said p a host port
all_said p (q ∷ qs) (a ∷ as') host port = said p a q.host q.port ++ all_said q qs as' host port
all_said p _ [] host port = []

abbrev pub all_answers : List Answer → Bytes
all_answers [] = []
all_answers (a ∷ as') = answer_bytes a ++ all_answers as'

-- A tunnel on the socket `c`, with what was sent on it and what can be read from it.
pub record Opened (t : Tunnel) (c : Conn) (out rest : Bytes) : Type 0 where
  pub after : Conn
  pub result : t ≡ connected after
  pub left : stream after ≡ rest
  pub sent_is : after.sent ≡ c.sent ++ out

abbrev pub IsHopCount : ℕ → Type 0
IsHopCount n = (1 ≤ n) × (n ≤ max_hops)

hop_count_ok : (n : ℕ) → IsHopCount n → (leb 1 n && leb n max_hops) ≡ true
hop_count_ok n h = ground arith

unless_ssh_lem : (t : ProxyType) (x : Tunnel) → t ≢ ssh → unless_ssh t x ≡ x
unless_ssh_lem ssh x n = absurd (n refl)
unless_ssh_lem socks4 x n = refl
unless_ssh_lem socks5 x n = refl
unless_ssh_lem http x n = refl

GrantsAs-ne-ssh :
    (t : ProxyType) (p : Proxy) (a : Answer) (host : Bytes) → GrantsAs t p a host → t ≢ ssh
GrantsAs-ne-ssh socks4 p a host g = ground arith
GrantsAs-ne-ssh socks5 p a host g = ground arith
GrantsAs-ne-ssh http p a host g = absurd g
GrantsAs-ne-ssh ssh p a host g = absurd g

AllGrant-ne-ssh :
    (p : Proxy) (ps : List Proxy) (answers : List Answer) (host : Bytes) (port : ℕ)
    → AllGrant p ps answers host port
    → p.type ≢ ssh
AllGrant-ne-ssh p [] [] host port g = absurd g
AllGrant-ne-ssh p [] (a ∷ []) host port g = GrantsAs-ne-ssh p.type p a host g.0
AllGrant-ne-ssh p [] (a ∷ b ∷ more) host port g = absurd g
AllGrant-ne-ssh p (q ∷ qs) [] host port g = absurd g
AllGrant-ne-ssh p (q ∷ qs) (a ∷ more) host port g = GrantsAs-ne-ssh p.type p a q.host g.0.0

port_ok : (p : ℕ) → IsPort p → port_valid p ≡ true
port_ok p h = ground arith

lens_ok :
    (user pass : Option Bytes)
    → AreValid user pass
    → (leb (ulen user) 255 && leb (plen user pass) 255) ≡ true
lens_ok user pass h = ground arith

module _ (accepts : ℕ → ℕ) (sends : (i : ℕ) → 0 < accepts i) where
  hop-Done :
      (t : ProxyType) (p : Proxy) (a : Answer) (host : Bytes) (port : ℕ) (rest : Bytes) (c : Conn)
      → GrantsAs t p a host
      → IsPort port
      → stream c ≡ answer_bytes a ++ rest
      → Done (negotiate_as accepts t p host port) c tt (said p a host port) rest
  unfolding negotiate_as
  hop-Done socks5 p (five r) host port rest c g h s =
      require-step (port_valid port) _ c (port_ok port h) (
        require-step (leb (length host) 255) _ c (le→leb (length host) 255 g.0) (
          require-step _ _ c (lens_ok (optional p.username) (optional p.password) g.1) (
            socks5_handshake-Done accepts sends (optional p.username) (optional p.password) host
              port r rest c g.1 g.2 g.0 h.1 g.3 s)))
  hop-Done socks4 p (four v address) host port rest c g h s =
      require-step (port_valid port) _ c (port_ok port h) (
        require-step _ _ c (le→leb _ _ g.1) (
          socks4_handshake-Done accepts sends host port (optional p.username) v address rest c h.1
            g.0 s))
  hop-Done socks5 p (four v b) host port rest c g h s = absurd g
  hop-Done socks4 p (five r) host port rest c g h s = absurd g
  hop-Done http p a host port rest c g h s = absurd g
  hop-Done ssh p a host port rest c g h s = absurd g

  negotiate_all-Done :
      (p : Proxy) (ps : List Proxy) (answers : List Answer) (host : Bytes) (port : ℕ) (rest : Bytes)
      (c : Conn)
      → AllGrant p ps answers host port
      → stream c ≡ all_answers answers ++ rest
      → Done (negotiate_all accepts p ps host port) c tt (all_said p ps answers host port) rest
  unfolding negotiate_all negotiate_hop
  negotiate_all-Done p [] [] host port rest c g s = absurd g
  negotiate_all-Done p [] (a ∷ []) host port rest c g s =
      hop-Done p.type p a host port rest c g.0 g.1 (s ∙ append_assoc (answer_bytes a) [] rest)
  negotiate_all-Done p [] (a ∷ b ∷ more) host port rest c g s = absurd g
  negotiate_all-Done p (q ∷ qs) [] host port rest c g s = absurd g
  negotiate_all-Done p (q ∷ qs) (a ∷ more) host port rest c g s =
      bind-Done (negotiate_as accepts p.type p q.host q.port)
        (λ _. negotiate_all accepts q qs host port) c
        (hop-Done p.type p a q.host q.port (all_answers more ++ rest) c g.0.0 g.0.1
          (s ∙ append_assoc (answer_bytes a) (all_answers more) rest))
        λ c1 s1. negotiate_all-Done q qs more host port rest c1 g.1 s1

  close-Opened :
      (m : M (Unit {0})) (c : Conn) {out rest : Bytes}
      → Done m c tt out rest
      → Opened (close_on_failure (m c)) c out rest
  close-Opened m c d = record {
    after = d.after;
    result = rw d.result refl;
    left = d.left;
    sent_is = d.sent_is;
  }

  connect_hops-Opened :
      (dial : Bytes → ℕ → Option Conn) (p : Proxy) (ps : List Proxy) (answers : List Answer)
      (host : Bytes) (port : ℕ) (rest : Bytes) (c : Conn)
      → AllGrant p ps answers host port
      → dial p.host p.port ≡ some c
      → stream c ≡ all_answers answers ++ rest
      → Opened
          (connect_hops accepts dial (p ∷ ps) host port)
          c
          (all_said p ps answers host port)
          rest
  unfolding connect_hops
  connect_hops-Opened dial p ps answers host port rest c g e s =
      rw
        (
          e,
          unless_ssh_lem p.type (close_on_failure (negotiate_all accepts p ps host port c))
              (AllGrant-ne-ssh p ps answers host port g),
        )
        (close-Opened (negotiate_all accepts p ps host port) c
          (negotiate_all-Done p ps answers host port rest c g s))

  -- For a chain of one to eight known proxies without an SSH hop, each SOCKS proxy of which grants the
  -- way to the next and the last one the way to the destination, a tunnel is opened on the first
  -- proxy's socket. Hop i is asked for hop i + 1 on the same socket, in order, and nothing else is sent;
  -- exactly the proxies' answers are read, so the tunnel starts at the destination's first byte.
  pub chain_connect-Opened :
      (dial : Bytes → ℕ → Option Conn) (chain : Chain) (proxies : List Proxy) (p : Proxy)
      (ps : List Proxy) (answers : List Answer) (host : Bytes) (port : ℕ) (rest : Bytes) (c : Conn)
      → IsHopCount (length chain.hops)
      → IsPort port
      → hop_proxies proxies chain.hops ≡ some (p ∷ ps)
      → AllGrant p ps answers host port
      → dial p.host p.port ≡ some c
      → stream c ≡ all_answers answers ++ rest
      → Opened
          (chain_connect accepts dial chain proxies host port)
          c
          (all_said p ps answers host port)
          rest
  unfolding chain_connect
  chain_connect-Opened dial chain proxies p ps answers host port rest c n v e g d s =
      rw (hop_count_ok (length chain.hops) n, port_ok port v, e)
        (connect_hops-Opened dial p ps answers host port rest c g d s)
