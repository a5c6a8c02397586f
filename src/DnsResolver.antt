-- ===== src/DnsResolver.antt =====
-- daemon/src/dns_resolver.c: the forwarder of DNS queries over HTTPS, its cache of answers, and the
-- choice of a proxy. The time is an argument.
pub mod Repeat
use proxiflare.Prelude.{
  ℕ, zero, suc, ◌+◌, ◌-◌, ◌*◌, ◌/◌, ◌%◌, Bool, true, false, not, ◌&&◌, ◌||◌, Option, none, some,
  List, [], ◌∷◌, ◌++◌, ◌==◌, ltb, leb, if◌then◌else◌, Bytes, length, get_or, get_elem?, set,
  replicate, take, drop, codes, bytes_eq, lower, min,
}
use proxiflare.Types.{Proxy, ProxyType, socks4, socks5, http, ssh}

-- DNS_CACHE_SIZE, DNS_CACHE_TTL_S and DNS_CACHE_RESP_MAX
abbrev pub answers_size : ℕ
answers_size = 512

abbrev pub answers_ttl : ℕ
answers_ttl = 60

abbrev pub resp_max : ℕ
resp_max = 1024

-- dns_cache_entry_t; `resp` holds its first `resp_len` bytes.
pub record Answer : Type 0 where
  pub name : Bytes
  pub qtype : ℕ
  pub resp : Bytes
  pub expires : ℕ

-- g_dns_cache and g_dns_cache_head
pub record Answers : Type 0 where
  pub entries : List Answer
  pub head : ℕ

abbrev pub no_answers : Answers
no_answers = record {
  entries = replicate answers_size (record { name = []; qtype = 0; resp = []; expires = 0 });
  head = 0;
}

-- The loop over the labels: the rounds left, what is at `off`, and `name`. The result is what is
-- behind the terminating zero, and the name with its dots.
unfoldable pub key_loop : ℕ → Bytes → Bytes → ℕ → Option (Bytes × Bytes)
unfolding lower
key_loop fuel [] name name_cap = none
key_loop zero (lb ∷ q) name name_cap = none
key_loop (suc fuel) (lb ∷ q) name name_cap =
    let rest = key_loop fuel (drop lb q) (name ++ (lower (take lb q) ++ b'.' ∷ [])) name_cap in
    if lb == 0
    then some (q, name)
    else if not (lb / 64 == 0)
    then none
    else if ltb (length q) lb || leb name_cap (length name + lb + 1)
    then none
    else rest

-- `if (nlen > 0 && name[nlen - 1] == '.') nlen--;`: every label has left a dot.
abbrev pub strip_dot : Bytes → Bytes
strip_dot name = take (length name - 1) name

abbrev pub key_of : Option (Bytes × Bytes) → Option (Bytes × ℕ)
key_of none = none
key_of (some (rest, name)) =
    if ltb (length rest) 4
    then none
    else some (strip_dot name, get_or rest 0 0 * 256 + get_or rest 1 0)

-- `extract_query_key`: the name and the type. A round of the loop takes a byte at least.
unfoldable pub extract_query_key : Bytes → ℕ → Option (Bytes × ℕ)
unfolding key_loop
extract_query_key q name_cap =
    if ltb (length q) 12 || ltb name_cap 2
    then none
    else key_of (key_loop (length q) (drop 12 q) [] name_cap)

abbrev pub skips : ℕ → Bytes → ℕ → Answer → Bool
skips now name qtype e =
    leb e.expires now || not (e.qtype == qtype) || length e.resp == 0 || not (bytes_eq e.name name)

-- The answer of an entry, with the query's id in front; `room` is `*out_len`.
abbrev pub answer_with : ℕ → ℕ → Answer → Option Bytes
answer_with id room e =
    if ltb room (length e.resp + 2) then none else some (id / 256 % 256 ∷ id % 256 ∷ e.resp)

unfoldable pub lookup_from : ℕ → Bytes → ℕ → ℕ → ℕ → List Answer → Option Bytes
unfolding bytes_eq
lookup_from now name qtype id room [] = none
lookup_from now name qtype id room (e ∷ es) =
    let rest = lookup_from now name qtype id room es in
    if skips now name qtype e then rest else answer_with id room e

unfoldable pub dns_cache_lookup : ℕ → Answers → Bytes → ℕ → ℕ → ℕ → Option Bytes
unfolding lookup_from
dns_cache_lookup now cache name qtype id room = lookup_from now name qtype id room cache.entries

abbrev pub new_answer : ℕ → Bytes → ℕ → Bytes → Answer
new_answer now name qtype resp = record {
  name = take 255 name;
  qtype = qtype;
  resp = drop 2 resp;
  expires = now + answers_ttl;
}

unfoldable pub dns_cache_put : ℕ → Answers → Bytes → ℕ → Bytes → Answers
dns_cache_put now cache name qtype resp =
    if ltb (length resp) 2 || ltb resp_max (length resp - 2) then cache else record {
      entries = set cache.entries cache.head (new_answer now name qtype resp);
      head = (cache.head + 1) % answers_size;
    }

-- SOCKS5 or HTTP
abbrev pub carries_dns : ProxyType → Bool
carries_dns socks5 = true
carries_dns http = true
carries_dns socks4 = false
carries_dns ssh = false

abbrev pub is_usable : Proxy → Bool
is_usable p = p.enabled && carries_dns p.type

unfoldable pub first_usable : List Proxy → Option Proxy
first_usable [] = none
first_usable (p ∷ ps) = let rest = first_usable ps in if is_usable p then some p else rest

-- `pick_dns_proxy`: the positive number of "dns_proxy_id" or 0, pf_config_proxy_get, and the list of
-- pf_config_proxy_list, where `none` is an error.
unfoldable pub pick_dns_proxy : ℕ → (ℕ → Option Proxy) → Option (List Proxy) → Option Proxy
unfolding first_usable
pick_dns_proxy configured proxy_get proxies =
    let fallback : Option Proxy = elim proxies [ none ↦ none | some ps ↦ first_usable ps ] in
    if configured == 0 then fallback else elim (proxy_get configured) [
      | none ↦ fallback
      | some p ↦ if is_usable p then some p else fallback
    ]

-- What the exchange with the DoH server over the proxy gives: the body of its answer.
abbrev pub Exchange : Type 0
Exchange = Proxy → Bytes → Option Bytes

-- What the client is sent, and the cache.
abbrev pub Replied : Type 0
Replied = Option Bytes × Answers

abbrev pub cached : ℕ → Answers → Option (Bytes × ℕ) → Bytes → Answers
cached now cache none body = cache
cached now cache (some (name, qtype)) body = dns_cache_put now cache name qtype body

-- From the choice of a proxy on.
abbrev pub forward : ℕ → Answers → Option Proxy → Exchange → Option (Bytes × ℕ) → Bytes → Replied
forward now cache none exchange key query = (none, cache)
forward now cache (some p) exchange key query = elim (exchange p query) [
  | none ↦ (none, cache)
  | some body ↦ (some body, cached now cache key body)
]

abbrev pub query_id : Bytes → ℕ
query_id query = if leb 2 (length query) then get_or query 0 0 * 256 + get_or query 1 0 else 0

abbrev pub from_cache : ℕ → Answers → Option (Bytes × ℕ) → Bytes → Option Bytes
from_cache now cache none query = none
from_cache now cache (some (name, qtype)) query =
    dns_cache_lookup now cache name qtype (query_id query) (resp_max + 2)

-- `dns_worker`, by the proxy that would be picked.
unfoldable pub dns_worker : ℕ → Answers → Option Proxy → Exchange → Bytes → Replied
unfolding extract_query_key dns_cache_lookup dns_cache_put
dns_worker now cache picked exchange query =
    let key = extract_query_key query 256 in
    elim (from_cache now cache key query) [
      | some reply ↦ (some reply, cache)
      | none ↦ forward now cache picked exchange key query
    ]
