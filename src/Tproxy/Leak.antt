-- ===== src/Tproxy/Leak.antt =====
-- What becomes of a connection whose proxy cannot be used.
use proxiflare.Prelude.{
  ℕ, ◌≡◌, ◌⊎◌, inl, inr, refl, Bool, true, false, Option, none, some, List, Bytes, if◌then◌else◌,
  ltb, Bool-cases,
}
use proxiflare.Types.{Proxy, Rule, Action, proxy}
use proxiflare.Libc.{Libc}
use proxiflare.Dns.{DnsEntry}
use proxiflare.Log.{Log}
use proxiflare.Route.{
  Config, Connectors, unrouted, known_domain, choose_rule, dial_proxy, Attempt, via_proxy, attempt,
  conclude, target_of, follow, settle, query_of, proxy_connect,
}
use proxiflare.Tproxy.{
  Tproxy, find_free_slot, Arrival, arrived, relayed, peek_domain, new_connection, claim, enter,
  tproxy_accept, accept_from,
}

-- The proxy is not in the database, is disabled, or its connector fails.
abbrev pub Unusable : Config → Connectors → ℕ → Bytes → ℕ → Type 0
Unusable cfg net id target port =
    (cfg.proxy_get id ≡ none)
    ⊎ ((p : Proxy) × (cfg.proxy_get id ≡ some p)
        × ((p.enabled ≡ false) ⊎ (dial_proxy net p.type p target port ≡ none)))

-- No descriptor came of an attempt.
abbrev Missed : Attempt → Type 0
Missed a = (a ≡ none) ⊎ ((name : Bytes) × (a ≡ some (name, none)))

if-Missed :
    (b : Bool) (name : Bytes) (fd : Option ℕ)
    → (b ≡ false) ⊎ (fd ≡ none)
    → Missed (if b then some (name, fd) else none)
if-Missed false name fd h = inl refl
if-Missed true name fd (inl e) = cc
if-Missed true name fd (inr e) = inr (name, rw e refl)

via_proxy-Missed :
    (cfg : Config) (net : Connectors) (id : ℕ) (target : Bytes) (port : ℕ)
    → Unusable cfg net id target port
    → Missed (via_proxy cfg net id target port)
via_proxy-Missed cfg net id target port (inl e) = inl (rw (via_proxy, e) refl)
via_proxy-Missed cfg net id target port (inr (p, e, u)) =
    rw (via_proxy, e) (if-Missed p.enabled p.name (dial_proxy net p.type p target port) u)

attempt-Missed :
    (cfg : Config) (net : Connectors) (r : Rule) (target : Bytes) (port : ℕ)
    → Unusable cfg net r.proxy_id target port
    → Missed (attempt cfg net proxy r target port)
unfolding attempt
attempt-Missed cfg net r target port u = elim (Bool-cases (ltb 0 r.proxy_id)) [
  | inl t ↦ rw (attempt, t) (via_proxy-Missed cfg net r.proxy_id target port u)
  | inr f ↦ inl (rw (attempt, f) refl)
]

module _ (libc : Libc) (cfg : Config) (net : Connectors) (rs : List Rule) (now : ℕ)
    (cache : List DnsEntry) (dst_ip : Bytes) (dst_port : ℕ) where
  Missed-unrouted :
      (a : Attempt) (r : Rule) (domain : Bytes) (log : Log)
      → Missed a
      → (conclude a r
          (query_of (known_domain now cache dst_ip domain) dst_ip dst_port)
          dst_ip
          log).0
        ≡ unrouted
  Missed-unrouted a r domain log (inl e) = rw e refl
  Missed-unrouted a r domain log (inr (name, e)) = rw e refl

  follow_unrouted :
      (action : Action) (r : Rule) (domain : Bytes) (log : Log)
      → action ≡ proxy
      → Unusable cfg net r.proxy_id
          (target_of (known_domain now cache dst_ip domain) dst_ip)
          dst_port
      → (follow cfg net rs action r
          (query_of (known_domain now cache dst_ip domain) dst_ip dst_port)
          dst_ip
          log).0
        ≡ unrouted
  unfolding follow
  follow_unrouted action r domain log a u =
      rw (a, follow) (Missed-unrouted _ r domain log (attempt-Missed cfg net r _ dst_port u))

  proxy_connect-Unusable :
      (domain : Bytes) (log : Log) (r : Rule)
      → choose_rule libc rs (query_of (known_domain now cache dst_ip domain) dst_ip dst_port)
        ≡ some r
      → r.action ≡ proxy
      → Unusable cfg net r.proxy_id
          (target_of (known_domain now cache dst_ip domain) dst_ip)
          dst_port
      → (proxy_connect libc cfg net rs now cache dst_ip dst_port domain log).0 ≡ unrouted
  unfolding proxy_connect settle
  proxy_connect-Unusable domain log r e a u =
      rw (proxy_connect, e) (follow_unrouted r.action r domain log a u)

  -- The proxy fails open. A connection whose deciding rule is a PROXY rule, of which the proxy is
  -- not in the database, is disabled or is not reached, is not dropped: if the table has a free slot
  -- and the destination answers, `pf_tproxy_accept` relays it over a connection straight to the
  -- original destination.
  pub tproxy_accept-Unusable :
      (tp : Tproxy) (slot fd : ℕ) (a : Arrival) (log : Log) (r : Rule)
      → a.original ≡ some (dst_ip, dst_port)
      → a.reached ≡ some fd
      → find_free_slot tp ≡ some slot
      → choose_rule libc rs
          (query_of (known_domain now cache dst_ip (peek_domain a.peeked)) dst_ip dst_port)
        ≡ some r
      → r.action ≡ proxy
      → Unusable cfg net r.proxy_id
          (target_of (known_domain now cache dst_ip (peek_domain a.peeked)) dst_ip)
          dst_port
      → (tproxy_accept (some (proxy_connect libc cfg net rs now cache)) tp (arrived a) log).0
        ≡ (relayed slot, claim tp slot (new_connection a.cfd fd dst_ip dst_port a.peeked))
  unfolding tproxy_accept enter
  tproxy_accept-Unusable tp slot fd a log r o reach free e p u =
      let out = proxy_connect-Unusable (peek_domain a.peeked) log r e p u in
      rw (tproxy_accept, o, accept_from, free, out, reach) refl
