-- ===== src/Chain/Ssh.antt =====
-- `pf_chain_connect` through a chain with an SSH proxy, first or further on.
use proxiflare.Prelude.{
  ℕ, ◌≡◌, ◌≢◌, ◌⊎◌, inl, inr, refl, Option, none, some, List, [], ◌∷◌, Bytes, Bool-cases, length,
  leb, ◌&&◌,
}
use proxiflare.Types.{Proxy, ProxyType, ssh, socks4, socks5, http, Chain}
use proxiflare.Net.{Conn, Res, ok, fail, M, ◌>>=◌}
use proxiflare.Socks.{Tunnel, refused, connected, close_on_failure, port_valid}
use proxiflare.Chain.{
  max_hops, negotiate_as, negotiate_hop, negotiate_all, hop_proxies, connect_hops, chain_connect,
  unless_ssh,
}

-- One of the hops is an SSH proxy.
abbrev pub HasSsh : Proxy → List Proxy → Type 0
HasSsh p [] = p.type ≡ ssh
HasSsh p (q ∷ qs) = (p.type ≡ ssh) ⊎ HasSsh q qs

-- A step that fails on every socket.
Fails : {A : Type 0} → M A → Type 0
Fails m = (c : Conn) → (m c).0 ≡ fail

bind-Fails_first : {A B : Type 0} (m : M A) (f : A → M B) → Fails m → Fails (m >>= f)
unfolding Fails
bind-Fails_first {A = A} {B = B} m f h c = go (m c).0 (m c).1 (h c)
  where
    go :
        (r : Res A) (c' : Conn)
        → r ≡ fail
        → (let out : Res B × Conn = elim r [ ok a ↦ f a c' | fail ↦ (fail, c') ] in out).0 ≡ fail
    go (ok a) c' e = cc
    go fail c' e = refl

bind-Fails_next : {A B : Type 0} (m : M A) (f : A → M B) → ((a : A) → Fails (f a)) → Fails (m >>= f)
unfolding Fails
bind-Fails_next {A = A} {B = B} m f h c = go (m c).0 (m c).1
  where
    go :
        (r : Res A) (c' : Conn)
        → (let out : Res B × Conn = elim r [ ok a ↦ f a c' | fail ↦ (fail, c') ] in out).0 ≡ fail
    go (ok a) c' = h a c'
    go fail c' = refl

module _ (accepts : ℕ → ℕ) where
  as-Fails :
      (t : ProxyType) (p : Proxy) (host : Bytes) (port : ℕ)
      → t ≡ ssh
      → Fails (negotiate_as accepts t p host port)
  unfolding Fails negotiate_as
  as-Fails ssh p host port e c = refl
  as-Fails socks4 p host port e c = cc
  as-Fails socks5 p host port e c = cc
  as-Fails http p host port e c = cc

  negotiate_all-Fails :
      (p : Proxy) (ps : List Proxy) (host : Bytes) (port : ℕ)
      → HasSsh p ps
      → Fails (negotiate_all accepts p ps host port)
  unfolding negotiate_all negotiate_hop
  negotiate_all-Fails p [] host port h = as-Fails p.type p host port h
  negotiate_all-Fails p (q ∷ qs) host port (inl e) =
      bind-Fails_first (negotiate_as accepts p.type p q.host q.port)
        (λ _. negotiate_all accepts q qs host port) (as-Fails p.type p q.host q.port e)
  negotiate_all-Fails p (q ∷ qs) host port (inr h) =
      bind-Fails_next (negotiate_as accepts p.type p q.host q.port)
        (λ _. negotiate_all accepts q qs host port) (λ _. negotiate_all-Fails q qs host port h)

  closes : (r : Res (Unit {0})) (c c' : Conn) → r ≡ fail → close_on_failure (r, c) ≢ connected c'
  closes (ok u) c c' e h = cc
  closes fail c c' e h = cc

  unless : (t : ProxyType) (x : Tunnel) (c : Conn) → x ≢ connected c → unless_ssh t x ≢ connected c
  unless ssh x c n e = cc
  unless socks4 x c n e = n e
  unless socks5 x c n e = n e
  unless http x c n e = n e

  connect_hops-ne :
      (dial : Bytes → ℕ → Option Conn) (p : Proxy) (ps : List Proxy) (host : Bytes) (port : ℕ)
      (c : Conn)
      → HasSsh p ps
      → connect_hops accepts dial (p ∷ ps) host port ≢ connected c
  unfolding connect_hops Fails
  connect_hops-ne dial p ps host port c h =
      unless p.type (dialled (dial p.host p.port)) c (none_open (dial p.host p.port))
    where
      dialled : Option Conn → Tunnel
      dialled d = elim d [
        | none ↦ refused
        | some c0 ↦ close_on_failure (negotiate_all accepts p ps host port c0)
      ]

      none_open : (d : Option Conn) → dialled d ≢ connected c
      none_open none e = cc
      none_open (some c0) e =
          closes (negotiate_all accepts p ps host port c0).0
            (negotiate_all accepts p ps host port c0).1 c (negotiate_all-Fails p ps host port h c0)
            e

  -- With an SSH proxy among its hops a chain of known proxies never yields a tunnel, whatever the
  -- proxies answer.
  pub chain_connect_ssh :
      (dial : Bytes → ℕ → Option Conn) (chain : Chain) (proxies : List Proxy) (p : Proxy)
      (ps : List Proxy) (host : Bytes) (port : ℕ) (c : Conn)
      → hop_proxies proxies chain.hops ≡ some (p ∷ ps)
      → HasSsh p ps
      → chain_connect accepts dial chain proxies host port ≢ connected c
  unfolding chain_connect
  chain_connect_ssh dial chain proxies p ps host port c e h =
      elim (Bool-cases (leb 1 (length chain.hops) && leb (length chain.hops) max_hops)) [
        | inr bad ↦ rw bad (λ z. cc)
        | inl good ↦ elim (Bool-cases (port_valid port)) [
          | inr bad ↦ rw (good, bad) (λ z. cc)
          | inl fine ↦ rw (good, fine, e) (connect_hops-ne dial p ps host port c h)
        ]
      ]
