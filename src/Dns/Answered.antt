-- ===== src/Dns/Answered.antt =====
-- What a query and its response leave in the cache of dns.c.
use proxiflare.Prelude.{
  ℕ, ◌+◌, ◌-◌, ◌≤◌, ◌<◌, ◌≡◌, ◌⊎◌, inl, inr, Bool-cases, refl, true, Option, none, some, List, [],
  ◌∷◌, ltb, Bytes, length, arith, take-all, set,
}
use mathlib.Core.Path.{subst}
use proxiflare.Prelude.Int.{negsuc, to_int}
use proxiflare.Types.{Rule, direct}
use proxiflare.Libc.{Libc}
use proxiflare.Rules.{rules_match}
use proxiflare.Rules.Match.{domain_max}
use proxiflare.Sni.Reader.{done}
use proxiflare.Dns.{DnsEntry, find_slot, lookup, cache_ttl}
use proxiflare.Dns.Names.{dotted}
use proxiflare.Dns.Lookup.{IsFor}
use proxiflare.Dns.Wire.{
  ARecord, address, ttl_of, records_bytes, Envelope, IsSized, message_bytes, packet_bytes,
}
use proxiflare.Dns.Callback.{Ntop, clamp_ttl, domain_query, dns_callback}
use proxiflare.Dns.Resolved.{IsName}
use proxiflare.Dns.Exchange.{Prints, matched_entry, last_of, resolved_entry, answered}

-- The entry for a domain, by the rule that was found for it or else DIRECT, as it is stored.
abbrev pub stored : ℕ → Bytes → Bytes → Option Rule → DnsEntry
stored until domain ip none = record {
  domain = domain;
  resolved_ip = ip;
  rule_id = negsuc 0;
  action = direct;
  proxy_id = negsuc 0;
  chain_id = negsuc 0;
  expires = until;
  used = true;
}
stored until domain ip (some r) = record {
  domain = domain;
  resolved_ip = ip;
  rule_id = to_int r.id;
  action = r.action;
  proxy_id = to_int r.proxy_id;
  chain_id = to_int r.chain_id;
  expires = until;
  used = true;
}

-- A record's TTL, cut to 30 to 300 seconds.
abbrev pub IsCut : ℕ → ℕ → Type 0
IsCut given ttl =
    ((given ≤ 30) × (ttl ≡ 30))
    ⊎ (((30 ≤ given) × (given ≤ 300) × (ttl ≡ given)) ⊎ ((300 ≤ given) × (ttl ≡ 300)))

clamp_ttl-IsCut : (given : ℕ) → IsCut given (clamp_ttl given)
clamp_ttl-IsCut given = elim (Bool-cases (ltb given 300)) [
  | inr no_cut ↦ inr (inr (ground arith, rw no_cut refl))
  | inl under ↦ elim (Bool-cases (ltb given 30)) [
    | inl low ↦ inl (ground arith, rw (under, low) refl)
    | inr mid ↦ inr (inl (ground arith, ground arith, rw (under, mid) refl))
  ]
]

matched_entry-stored :
    (now : ℕ) (domain : Bytes) (r : Option Rule)
    → length domain < domain_max
    → matched_entry now domain r ≡ stored (now + 300) domain [] r
matched_entry-stored now domain none lt = rw (take-all (domain_max - 1) domain (omega arith)) refl
matched_entry-stored now domain (some r) lt =
    rw (take-all (domain_max - 1) domain (omega arith)) refl

resolved_entry-stored :
    (now now' : ℕ) (domain ip : Bytes) (ttl : ℕ) (r : Option Rule)
    → length domain < domain_max
    → resolved_entry now' (matched_entry now domain r) ip ttl
      ≡ stored (now' + clamp_ttl ttl) domain ip r
resolved_entry-stored now now' domain ip ttl none lt =
    rw (take-all (domain_max - 1) domain (omega arith)) refl
resolved_entry-stored now now' domain ip ttl (some r) lt =
    rw (take-all (domain_max - 1) domain (omega arith)) refl

-- What a query and its response leave, by the entries that they store.
abbrev Leaves :
    Libc
    → (ntop : Ntop) → Prints ntop
    → List Rule
    → ℕ
    → ℕ
    → Bytes
    → Bytes
    → List DnsEntry
    → ℕ
    → Bytes
    → DnsEntry
    → DnsEntry
    → Type 0
Leaves libc ntop prints rules now now' query response cache slot ip first final =
    (dns_callback libc ntop rules now query cache ≡ done (set cache slot first))
    × (dns_callback libc ntop rules now' response (set cache slot first)
        ≡ done (set cache slot final))
    × ((e : DnsEntry) × (lookup now' (set cache slot final) ip ≡ some e) × IsFor now' ip e)

-- A query for a name, of which the cache has an entry or room for one, and within 300 seconds a
-- response with A records: the query stores the entry of the first rule that the engine finds for
-- the domain, or of DIRECT; the response gives that entry the address of its last record, and its
-- TTL cut to 30 to 300 seconds, and changes nothing else; a lookup of that address then finds a live
-- entry with it. The name fits its field and has no NUL, and inet_ntop prints IPv4 addresses.
pub query_and_response :
    (libc : Libc) (ntop : Ntop) (prints : Prints ntop) (rules : List Rule) (now now' : ℕ)
    (v v' : Envelope) (ls : List Bytes) (q : Bytes) (flags flags' : ℕ) (cache : List DnsEntry)
    (slot : ℕ) (r : ARecord) (rs : List ARecord)
    → IsSized v
    → IsSized v'
    → IsName ls
    → length q ≡ 4
    → flags < 0x80
    → 0x80 ≤ flags'
    → length (r ∷ rs) < 65536
    → now ≤ now'
    → now' < now + cache_ttl
    → find_slot now cache (dotted ls) ≡ some slot
    → let domain = dotted ls in
      let rule =
        rules_match libc rules
          (record { app_path = none; domain = some domain; dst_ip = none; dst_port = 0 }) in
      let last = last_of r rs in
      let ip = prints.text (address last) in
      let first = stored (now + 300) domain [] rule in
      (ttl : ℕ) × IsCut (ttl_of last) ttl
      × (let final = stored (now' + ttl) domain ip rule in
          (dns_callback libc ntop rules now (packet_bytes v (message_bytes v flags 0 ls q [])) cache
            ≡ done (set cache slot first))
          × (dns_callback libc ntop rules now'
                (packet_bytes v'
                  (message_bytes v' flags' (length (r ∷ rs)) ls q (records_bytes (r ∷ rs) [])))
                (set cache slot first)
              ≡ done (set cache slot final))
          × ((e : DnsEntry) × (lookup now' (set cache slot final) ip ≡ some e) × IsFor now' ip e))
query_and_response libc ntop prints rules now now' v v' ls q flags flags' cache slot r rs sized
      sized' name asked lt le few later soon f =
    let domain = dotted ls in
    let rule = rules_match libc rules (domain_query domain) in
    let last = last_of r rs in
    let ip = prints.text (address last) in
    let leaves =
      Leaves libc ntop prints rules now now' (packet_bytes v (message_bytes v flags 0 ls q []))
        (packet_bytes v'
          (message_bytes v' flags' (length (r ∷ rs)) ls q (records_bytes (r ∷ rs) [])))
        cache slot ip in
    let matched = matched_entry now domain rule in
    (
      clamp_ttl (ttl_of last),
      clamp_ttl-IsCut (ttl_of last),
      subst (λ first. leaves first (stored (now' + clamp_ttl (ttl_of last)) domain ip rule))
          (matched_entry-stored now domain rule name.short)
          (subst (λ final. leaves matched final)
            (resolved_entry-stored now now' domain ip (ttl_of last) rule name.short)
            (answered libc ntop prints rules now now' v v' ls q flags flags' cache slot r rs sized
              sized' name asked lt le few later soon f)),
    )
