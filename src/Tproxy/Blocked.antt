-- ===== src/Tproxy/Blocked.antt =====
-- A TLS connection to a blocked domain, from the bytes of its ClientHello to the table.
use proxiflare.Prelude.{
  ℕ, ◌+◌, ◌<◌, ◌≡◌, ◌≢◌, inl, inr, refl, ap, true, false, some, List, [], ◌∷◌, Bytes, length,
  c_text-whole, contains_byte, get_or, take-all, arith,
}
use proxiflare.Types.{Rule, Action, block}
use proxiflare.Libc.{Libc}
use proxiflare.Dns.{DnsEntry}
use proxiflare.Log.{Log}
use proxiflare.Rules.{Query, rule_matches, rules_match}
use proxiflare.Rules.Match.{match_domain, domain_max}
use proxiflare.Rules.First.{Applies, Applies-rule_matches}
use proxiflare.Rules.Domain.{IsUnder, match_domain_single_suffix}
use proxiflare.Sni.Wire.{Hello, IsHello, encode}
use proxiflare.Sni.RoundTrip.{extract-encode}
use proxiflare.Route.{
  Config, Connectors, blocked, known_domain, choose_rule, is_direct, follow, settle, query_of,
  proxy_connect,
}
use proxiflare.Tproxy.{
  Tproxy, find_free_slot, Arrival, arrived, dropped, peek_domain, enter, tproxy_accept, accept_from,
}

peek_domain-encode :
    (h : Hello)
    → IsHello h
    → contains_byte 0 h.name ≡ false
    → length h.name < domain_max
    → peek_domain (encode h) ≡ h.name
unfolding peek_domain
peek_domain-encode h ok n lt =
    rw
      (peek_domain, extract-encode h domain_max ok (omega arith), take-all 252 h.name (omega arith))
      (c_text-whole h.name n)

known_domain-name :
    (now : ℕ) (cache : List DnsEntry) (dst_ip name : Bytes)
    → name ≢ []
    → known_domain now cache dst_ip name ≡ some name
unfolding known_domain
known_domain-name now cache dst_ip [] n = absurd (n refl)
known_domain-name now cache dst_ip (c ∷ name) n = refl

module _ (libc : Libc) where
  -- A rule for "*.base" alone.
  suffix-Applies :
      (r : Rule) (base name dst_ip : Bytes) (dst_port : ℕ)
      → r.enabled ≡ true
      → r.app_path ≡ []
      → r.domain ≡ b'*' ∷ b'.' ∷ base
      → r.ip_cidr ≡ []
      → r.dst_port ≡ 0
      → base ≢ []
      → get_or (b'*' ∷ b'.' ∷ base) (length base + 1) 0 ≢ b'*'
      → contains_byte b',' (b'*' ∷ b'.' ∷ base) ≡ false
      → IsUnder base name
      → Applies libc r (query_of (some name) dst_ip dst_port)
  unfolding match_domain
  suffix-Applies r base name dst_ip dst_port e a d i p ne last comma u = record {
    enabled = e;
    app = inl a;
    domain = inr (
      name,
      refl,
      rw (d, match_domain, comma) ((match_domain_single_suffix libc name base ne last).1 u),
    );
    ip = inl i;
    port = inl p;
  }

  module _ (cfg : Config) (net : Connectors) (rs : List Rule) where
    first-chosen :
        (r : Rule) (q : Query) → rule_matches libc r q ≡ true → rules_match libc (r ∷ rs) q ≡ some r
    unfolding rules_match
    first-chosen r q m = rw (rules_match, m) refl

    follow-block :
        (a : Action) (r : Rule) (q : Query) (dst_ip : Bytes) (log : Log)
        → a ≡ block
        → follow cfg net (r ∷ rs) a r q dst_ip log ≡ (blocked, log)
    unfolding follow
    follow-block a r q dst_ip log e = rw (e, follow) refl

    blocked_outcome :
        (r : Rule) (dst_ip : Bytes) (dst_port : ℕ) (name : Bytes) (now : ℕ) (cache : List DnsEntry)
        (log : Log)
        → name ≢ []
        → rule_matches libc r (query_of (some name) dst_ip dst_port) ≡ true
        → r.action ≡ block
        → proxy_connect libc cfg net (r ∷ rs) now cache dst_ip dst_port name log ≡ (blocked, log)
    unfolding proxy_connect choose_rule settle
    blocked_outcome r dst_ip dst_port name now cache log n m a =
        let q = query_of (some name) dst_ip dst_port in
        let stays : is_direct r.action ≡ false = ap is_direct a in
        rw
          (
            proxy_connect,
            known_domain-name now cache dst_ip name n,
            choose_rule,
            first-chosen r q m,
            stays,
            settle,
          )
          (follow-block r.action r q dst_ip log a)

    -- A connection that opens with a well-formed ClientHello for a name at or under `base`, of fewer
    -- than 253 bytes and without a NUL, is dropped if the first rule is an enabled BLOCK rule for
    -- "*.base" alone: `pf_tproxy_accept` connects to nothing and leaves the table and the log as they
    -- are. The base is not empty, has no comma and does not end with a star, the kernel tells the
    -- original destination, and the table has a free slot.
    pub tproxy_accept_blocked :
        (r : Rule) (base dst_ip : Bytes) (dst_port : ℕ) (h : Hello) (now : ℕ)
        (cache : List DnsEntry) (tp : Tproxy) (slot : ℕ) (a : Arrival) (log : Log)
        → r.enabled ≡ true
        → r.app_path ≡ []
        → r.domain ≡ b'*' ∷ b'.' ∷ base
        → r.ip_cidr ≡ []
        → r.dst_port ≡ 0
        → r.action ≡ block
        → base ≢ []
        → get_or (b'*' ∷ b'.' ∷ base) (length base + 1) 0 ≢ b'*'
        → contains_byte b',' (b'*' ∷ b'.' ∷ base) ≡ false
        → IsUnder base h.name
        → IsHello h
        → contains_byte 0 h.name ≡ false
        → length h.name < domain_max
        → a.original ≡ some (dst_ip, dst_port)
        → a.peeked ≡ encode h
        → find_free_slot tp ≡ some slot
        → tproxy_accept (some (proxy_connect libc cfg net (r ∷ rs) now cache)) tp (arrived a) log
          ≡ ((dropped, tp), log)
    unfolding tproxy_accept enter
    tproxy_accept_blocked r base dst_ip dst_port h now cache tp slot a log e app d i port b ne last
          comma u ok n lt o p f =
        let applies : Applies libc r (query_of (some h.name) dst_ip dst_port) =
          suffix-Applies r base h.name dst_ip dst_port e app d i port ne last comma u in
        let out =
          blocked_outcome r dst_ip dst_port h.name now cache log ok.has_name
            (Applies-rule_matches libc r (query_of (some h.name) dst_ip dst_port) applies) b in
        rw (tproxy_accept, o, accept_from, f, p, peek_domain-encode h ok n lt, out) refl
