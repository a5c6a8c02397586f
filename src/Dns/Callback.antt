-- ===== src/Dns/Callback.antt =====
-- daemon/src/dns.c: `dns_callback`, which reads a queued packet. Bytes are read through
-- Sni/Reader.antt, so that a read behind the payload is `fault`. Offsets count from the payload's
-- start, and its end is the length. nfq_get_payload gave the packet; the verdict is always NF_ACCEPT
-- and is not a part of the result. inet_ntop is a parameter, the time an argument.
use proxiflare.Prelude.{
  ℕ, zero, suc, ◌+◌, ◌-◌, ◌*◌, ◌%◌, ◌^◌, Bool, true, false, not, ◌&&◌, ◌||◌, Option, none, some,
  List, [], ◌==◌, leb, ltb, if◌then◌else◌, Bytes, length, take, drop, set, get_elem?, eq_ci, c_text,
}
use proxiflare.Prelude.Int.{negsuc, to_int}
use proxiflare.Types.{Rule, direct}
use proxiflare.Libc.{Libc}
use proxiflare.Rules.{Query, rules_match}
use proxiflare.Rules.Match.{domain_max}
use proxiflare.Sni.Reader.{Parse, done, fault, ◌>>=◌, u8, u16be, copy}
use proxiflare.Dns.{DnsEntry, Qname, parse_qname, find_slot, cache_add, cache_ttl}

-- inet_ntop for AF_INET and AF_INET6; `none` is NULL.
pub record Ntop : Type 0 where
  pub v4 : Bytes → Option Bytes
  pub v6 : Bytes → Option Bytes

abbrev pub domain_query : Bytes → Query
domain_query domain = record { app_path = none; domain = some domain; dst_ip = none; dst_port = 0 }

abbrev pub add_for : ℕ → List DnsEntry → Bytes → Bytes → Option Rule → List DnsEntry
add_for now cache domain ip none =
    cache_add now cache domain ip (negsuc 0) direct (negsuc 0) (negsuc 0)
add_for now cache domain ip (some r) =
    cache_add now cache domain ip (to_int r.id) r.action (to_int r.proxy_id) (to_int r.chain_id)

-- The TTL of an A record: at most PF_DNS_TTL, at least 30.
abbrev pub clamp_ttl : ℕ → ℕ
clamp_ttl rttl =
    let ttl = if ltb rttl cache_ttl then rttl else cache_ttl in if ltb ttl 30 then 30 else ttl

-- A record's fixed part, and the offset of its data.
pub record Answer : Type 0 where
  pub rtype : ℕ
  pub rttl : ℕ
  pub rdlength : ℕ
  pub rdata : ℕ

-- The loop over an owner name: `none` is `broken`. A round moves on by a byte at least.
unfoldable pub owner_loop : ℕ → Bytes → ℕ → Parse (Option ℕ)
unfolding u8
owner_loop zero d off = fault
owner_loop (suc fuel) d off = elim (ltb off (length d)) [
  | false ↦ done (some off)
  | true ↦ do
    b ← u8 d off
    let next = owner_loop fuel d (off + b + 1)
    if leb 0xC0 b
        then done (if ltb (length d) (off + 2) then none else some (off + 2))
        else if b == 0
        then done (some (off + 1))
        else if ltb (length d) (off + 1 + b)
        then done none
        else next
]

-- From TYPE on; `none` where the loop over the answers breaks.
unfoldable pub read_fixed : Bytes → ℕ → Parse (Option Answer)
unfolding u8 u16be
read_fixed d off = if ltb (length d) (off + 10) then done none else do
  rtype ← u16be d off
  b4 ← u8 d (off + 4)
  b5 ← u8 d (off + 5)
  b6 ← u8 d (off + 6)
  b7 ← u8 d (off + 7)
  rdlength ← u16be d (off + 8)
  let a : Answer = record {
    rtype = rtype;
    rttl = b4 * 2 ^ 24 + b5 * 2 ^ 16 + b6 * 2 ^ 8 + b7;
    rdlength = rdlength;
    rdata = off + 10;
  }
  done (if ltb (length d) (off + 10 + rdlength) then none else some a)

unfoldable pub read_answer : Bytes → Option ℕ → Parse (Option Answer)
unfolding read_fixed
read_answer d none = done none
read_answer d (some off) = read_fixed d off

-- What a UDP packet holds of DNS, if it is one: the offset of the message.
unfoldable pub find_message : Bytes → Parse (Option ℕ)
unfolding u8
find_message d = if ltb (length d) 20 then done none else do
  ver_ihl ← u8 d 0
  let hlen = ver_ihl % 16 * 4
  if ltb hlen 20 || ltb (length d) hlen then done none else do
    protocol ← u8 d 9
    done (
        if not (protocol == 17) || ltb (length d) (hlen + 8) || ltb (length d) (hlen + 8 + 12)
        then none
        else some (hlen + 8))

abbrev pub behind_name : Bytes → ℕ → Qname → Bytes × ℕ
behind_name d off (out, none) = (c_text out, off)
behind_name d off (out, some after) = (c_text out, length d - length after + 4)

-- The domain of the first question, and the offset behind it.
unfoldable pub question : Bytes → ℕ → ℕ → Parse (Bytes × ℕ)
unfolding parse_qname c_text
question d off qdcount =
    if qdcount == 0
    then done ([], off)
    else do name ← parse_qname (drop off d) domain_max; done (behind_name d off name)

module _ (libc : Libc) (ntop : Ntop) (rules : List Rule) (now : ℕ) where
  -- pf_rules_match for the domain alone, and pf_dns_cache_add with what it found.
  unfoldable pub add_matched : List DnsEntry → Bytes → Bytes → List DnsEntry
  unfolding rules_match cache_add
  add_matched cache domain ip =
      add_for now cache domain ip (rules_match libc rules (domain_query domain))

  -- An entry in the slot that was found: its address is set, or the entry is made anew.
  unfoldable pub fill : List DnsEntry → Bytes → Bytes → ℕ → ℕ → Option DnsEntry → List DnsEntry
  unfolding eq_ci add_matched
  fill cache domain ip ttl slot none = cache
  fill cache domain ip ttl slot (some e) =
      if e.used && eq_ci e.domain domain
      then set cache slot (record e { resolved_ip = take 45 ip; expires = now + ttl })
      else add_matched cache domain ip

  unfoldable pub resolve : List DnsEntry → Bytes → Bytes → ℕ → List DnsEntry
  unfolding find_slot fill
  resolve cache domain ip ttl = elim (find_slot now cache domain) [
    | none ↦ cache
    | some slot ↦ fill cache domain ip ttl slot (get_elem? cache slot)
  ]

  -- What an address that inet_ntop printed does to the cache.
  unfoldable pub resolve_text : List DnsEntry → Bytes → ℕ → Option Bytes → List DnsEntry
  unfolding resolve
  resolve_text cache domain ttl none = cache
  resolve_text cache domain ttl (some ip) = resolve cache domain ip ttl

  -- One record: type A with 4 bytes, or AAAA with 16.
  unfoldable pub use_answer : Bytes → Answer → Bytes → List DnsEntry → Parse (List DnsEntry)
  unfolding copy resolve_text
  use_answer d a domain cache =
      if a.rtype == 1 && a.rdlength == 4
      then (do
        addr ← copy d a.rdata 4
        done (resolve_text cache domain (clamp_ttl a.rttl) (ntop.v4 addr)))
      else if a.rtype == 28 && a.rdlength == 16
      then (do addr ← copy d a.rdata 16; done (resolve_text cache domain cache_ttl (ntop.v6 addr)))
      else done cache

  -- `for (i = 0; i < ancount && ptr < end; i++)`, with the records left.
  unfoldable pub answers : ℕ → Bytes → ℕ → Bytes → List DnsEntry → Parse (List DnsEntry)
  unfolding owner_loop read_answer use_answer
  answers zero d off domain cache = done cache
  answers (suc left) d off domain cache = elim (ltb off (length d)) [
    | false ↦ done cache
    | true ↦ do
      owner ← owner_loop (suc (length d)) d off
      found ← read_answer d owner
      elim found [
        | none ↦ done cache
        | some a ↦ do
          cache' ← use_answer d a domain cache
          answers left d (a.rdata + a.rdlength) domain cache'
      ]
  ]

  -- Behind the header: no domain, a query, or a response.
  unfoldable pub on_name : Bytes → Bool → ℕ → Bytes × ℕ → List DnsEntry → Parse (List DnsEntry)
  unfolding add_matched answers
  on_name d is_response ancount (domain, off) cache =
      if length domain == 0
      then done cache
      else if not is_response
      then done (add_matched cache domain [])
      else answers ancount d off domain cache

  -- A message at `base`, with its 12 bytes of header.
  unfoldable pub on_message : Bytes → ℕ → List DnsEntry → Parse (List DnsEntry)
  unfolding u8 u16be question on_name
  on_message d base cache = do
    flags_hi ← u8 d (base + 2)
    tx_id ← u16be d base
    qdcount ← u16be d (base + 4)
    ancount ← u16be d (base + 6)
    asked ← question d (base + 12) qdcount
    on_name d (leb 0x80 flags_hi) ancount asked cache

  unfoldable pub dns_callback : Bytes → List DnsEntry → Parse (List DnsEntry)
  unfolding find_message on_message
  dns_callback d cache = do
    found ← find_message d
    elim found [ none ↦ done cache | some base ↦ on_message d base cache ]
