-- ===== src/Dns.antt =====
-- daemon/src/dns.c: the parser of query names, and the cache from addresses to domains.
pub mod Names
pub mod Lookup
pub mod Callback
pub mod Kept
pub mod Unique
pub mod Wire
pub mod Held
pub mod Resolved
pub mod Exchange
pub mod Answered
use proxiflare.Prelude.{
  ℕ, zero, suc, ◌+◌, ◌-◌, Bool, true, false, not, ◌&&◌, ◌||◌, Option, none, some, List, [], ◌∷◌,
  ◌++◌, ◌==◌, leb, ltb, if◌then◌else◌, Bytes, length, take, drop, set, replicate, bytes_eq, eq_ci,
}
use proxiflare.Prelude.Int.{ℤ}
use proxiflare.Types.{Action, direct}
use proxiflare.Rules.Match.{domain_max}
use proxiflare.Sni.Reader.{Parse, done, fault, ◌>>=◌, u8, copy}

-- `dns_parse_qname`: what stands in `out`, whose bytes behind it are NUL as the caller leaves them,
-- and what is behind the name; `none` is NULL. The caller uses `out` even then. A pointer is the
-- bytes from it up to `end`, and is read through Sni/Reader.antt: a read or a memcpy that passes
-- `end`, and running out of rounds, is `fault`.
abbrev pub Qname : Type 0
Qname = Bytes × Option Bytes

-- The label of `len` bytes at `ptr`, behind what is written.
abbrev pub append_label : Bytes → ℕ → Bytes → ℕ → (Bytes → Parse Qname) → Parse Qname
append_label out len ptr outsz next =
    if ltb 0 (length out) && leb outsz (length out + 1)
    then done (out, none)
    else (let dotted = if ltb 0 (length out) then out ++ b'.' ∷ [] else out in
        if leb outsz (length dotted + len)
        then done (dotted, none)
        else (copy ptr 0 len >>= λ label. next (dotted ++ label)))

-- The body of the loop, behind the byte `len`: `next` is the loop from a pointer on.
abbrev pub qname_step : Bytes → ℕ → Bytes → ℕ → (Bytes → Bytes → Parse Qname) → Parse Qname
qname_step out len ptr outsz next =
    if leb 0xC0 len
    then done (out, if length ptr == 0 then none else some (drop 1 ptr))
    else if len == 0
    then done (out, some ptr)
    else if ltb (length ptr) len
    then done (out, none)
    else append_label out len ptr outsz (next (drop len ptr))

-- The rounds left, and `ptr`; a round reads a byte at least.
unfoldable pub qname_loop : ℕ → Bytes → Bytes → ℕ → Parse Qname
unfolding u8 copy
qname_loop zero ptr out outsz = fault
qname_loop (suc fuel) ptr out outsz = elim (ltb 0 (length ptr)) [
  | false ↦ done (out, some ptr)
  | true ↦ do
    len ← u8 ptr 0
    qname_step out len (drop 1 ptr) outsz (λ ptr' out'. qname_loop fuel ptr' out' outsz)
]

unfoldable pub parse_qname : Bytes → ℕ → Parse Qname
unfolding qname_loop
parse_qname ptr outsz = qname_loop (suc (length ptr)) ptr [] outsz

-- PF_DNS_CACHE_SIZE and PF_DNS_TTL
abbrev pub cache_size : ℕ
cache_size = 4096

abbrev pub cache_ttl : ℕ
cache_ttl = 300

pub record DnsEntry : Type 0 where
  pub domain : Bytes
  pub resolved_ip : Bytes
  pub rule_id : ℤ
  pub action : Action
  pub proxy_id : ℤ
  pub chain_id : ℤ
  pub expires : ℕ
  pub used : Bool

-- `!(!e->used || e->expires <= now)`
abbrev pub is_live : ℕ → DnsEntry → Bool
is_live now e = e.used && not (leb e.expires now)

-- `if (reuse < 0) reuse = i;`
abbrev pub reuse_or : Option ℕ → ℕ → Option ℕ
reuse_or none i = some i
reuse_or (some j) i = some j

-- The loop of `cache_find_slot` at index `i`.
unfoldable pub find_slot_loop : ℕ → Bytes → List DnsEntry → ℕ → Option ℕ → Option ℕ
unfolding eq_ci
find_slot_loop now domain [] i reuse = reuse
find_slot_loop now domain (e ∷ es) i reuse =
    let skip = find_slot_loop now domain es (i + 1) (reuse_or reuse i) in
    let next = find_slot_loop now domain es (i + 1) reuse in
    if not (is_live now e) then skip else if eq_ci e.domain domain then some i else next

unfoldable pub find_slot : ℕ → List DnsEntry → Bytes → Option ℕ
unfolding find_slot_loop
find_slot now cache domain = find_slot_loop now domain cache 0 none

-- `pf_dns_lookup` at the time `now`.
unfoldable pub lookup : ℕ → List DnsEntry → Bytes → Option DnsEntry
unfolding bytes_eq
lookup now [] ip = none
lookup now (e ∷ es) ip =
    let rest = lookup now es ip in
    if is_live now e && (not (length e.resolved_ip == 0) && bytes_eq e.resolved_ip ip)
    then some e
    else rest

-- The entry that `pf_dns_cache_add` writes; strncpy keeps what the fields hold before their NUL.
abbrev pub new_entry : ℕ → Bytes → Bytes → ℤ → Action → ℤ → ℤ → DnsEntry
new_entry now domain ip rule_id action proxy_id chain_id = record {
  domain = take (domain_max - 1) domain;
  resolved_ip = take 45 ip;
  rule_id = rule_id;
  action = action;
  proxy_id = proxy_id;
  chain_id = chain_id;
  expires = now + cache_ttl;
  used = true;
}

unfoldable pub cache_add : ℕ → List DnsEntry → Bytes → Bytes → ℤ → Action → ℤ → ℤ → List DnsEntry
unfolding find_slot
cache_add now cache domain ip rule_id action proxy_id chain_id = elim (find_slot now cache domain) [
  | none ↦ cache
  | some slot ↦ set cache slot (new_entry now domain ip rule_id action proxy_id chain_id)
]
