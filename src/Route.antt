-- ===== src/Route.antt =====
-- daemon/src/main.c: `proxy_connect_for_tproxy`, which decides where a redirected connection goes. The
-- entry that it logs is also sent to the clients that subscribed to the log (`log_receivers` of
-- Ipc.antt), which changes no state of this function.
pub mod Diverts
pub mod Choice
use proxiflare.Prelude.{
  ℕ, Bool, true, false, not, ◌&&◌, ◌||◌, Option, none, some, List, [], ◌∷◌, ◌==◌, ltb,
  if◌then◌else◌, Bytes, length, codes,
}
use proxiflare.Types.{
  Proxy, ProxyType, socks4, socks5, http, ssh, Rule, Chain, Action, direct, proxy, chain, block,
  reject,
}
use proxiflare.Types.Names.{action_str}
use proxiflare.Libc.{Libc}
use proxiflare.Rules.{Query, criterion, rules_match}
use proxiflare.Rules.Match.{match_domain, match_ip}
use proxiflare.Dns.{DnsEntry, lookup}
use proxiflare.Log.{Event, Log, log_event}

-- What config.c reads from the database.
pub record Config : Type 0 where
  -- pf_config_proxy_get and pf_config_chain_get; `none` is not PF_OK.
  pub proxy_get : ℕ → Option Proxy
  pub chain_get : ℕ → Option Chain
  -- The first PF_MAX_PROXIES proxies of pf_config_proxy_list.
  pub proxy_list : List Proxy

-- The connectors, by host and port of the proxy, host and port of the target, and credentials. The
-- result is the connected descriptor, `none` is -1.
pub record Connectors : Type 0 where
  pub socks5_connect : Bytes → ℕ → Bytes → ℕ → Bytes → Bytes → Option ℕ
  pub socks4_connect : Bytes → ℕ → Bytes → ℕ → Bytes → Option ℕ
  pub http_connect : Bytes → ℕ → Bytes → ℕ → Bytes → Bytes → Option ℕ
  pub chain_connect : Chain → List Proxy → Bytes → ℕ → Option ℕ

-- A descriptor, -1 and -2.
pub data Outcome : Type 0 where
  descriptor : ℕ → Outcome
  unrouted blocked : Outcome

abbrev pub is_empty : Bytes → Bool
is_empty s = length s == 0

abbrev pub is_direct : Action → Bool
is_direct direct = true
is_direct a = false

abbrev pub is_proxy : Action → Bool
is_proxy proxy = true
is_proxy a = false

-- `match_domain`, NULL as `none`: the name of the handshake, or else the name that a DNS answer gave
-- this address.
unfoldable pub known_domain : ℕ → List DnsEntry → Bytes → Bytes → Option Bytes
unfolding lookup
known_domain now cache dst_ip (c ∷ domain) = some (c ∷ domain)
known_domain now cache dst_ip [] =
    if is_empty dst_ip then none else elim (lookup now cache dst_ip) [
      | none ↦ none
      | some e ↦ if is_empty e.domain then none else some e.domain
    ]

abbrev pub first_or : Option Rule → Rule → Option Rule
first_or none r = some r
first_or (some best) r = some best

abbrev pub or_else : Option Rule → Option Rule → Option Rule
or_else (some r) o = some r
or_else none o = o

-- Is the rule an app-based PROXY rule?
abbrev pub is_candidate : Rule → Bool
is_candidate r =
    r.enabled && is_proxy r.action && not (is_empty r.app_path) && not (r.proxy_id == 0)

abbrev pub has_specifics : Rule → Bool
has_specifics r = not (is_empty r.domain) || not (is_empty r.ip_cidr) || not (r.dst_port == 0)

module _ (libc : Libc) where
  abbrev pub criteria_ok : Rule → Query → Bool
  criteria_ok r q =
      criterion (match_domain libc) r.domain q.domain
      && criterion (match_ip libc) r.ip_cidr q.dst_ip
      && (r.dst_port == 0 || q.dst_port == r.dst_port)

  -- The body of the loop, on `best_specific` and `best_catchall`.
  unfoldable pub pick : Rule → Query → Option Rule × Option Rule → Option Rule × Option Rule
  pick r q (specific, catchall) =
      if not (is_candidate r)
      then (specific, catchall)
      else if not (criteria_ok r q)
      then (specific, catchall)
      else if has_specifics r
      then (first_or specific r, catchall)
      else (specific, first_or catchall r)

  unfoldable pub scan : List Rule → Query → Option Rule × Option Rule → Option Rule × Option Rule
  unfolding pick
  scan [] q best = best
  scan (r ∷ rs) q best = scan rs q (pick r q best)

  abbrev pub best_of : Option Rule × Option Rule → Option Rule
  best_of (specific, catchall) = or_else specific catchall

  -- `rule`, once both attempts are made; `matched` is what `pf_rules_match` returned.
  abbrev pub rescan : List Rule → Query → Option Rule → Option Rule
  rescan rs q none = best_of (scan rs q (none, none))
  rescan rs q (some r) = if is_direct r.action then best_of (scan rs q (none, none)) else some r

  unfoldable pub choose_rule : List Rule → Query → Option Rule
  unfolding rules_match scan
  choose_rule rs q = rescan rs q (rules_match libc rs q)

-- The label of a connection that no rule routes: the first enabled rule with an application.
unfoldable pub direct_app : List Rule → Bytes
direct_app [] = []
direct_app (r ∷ rs) =
    let rest = direct_app rs in if r.enabled && not (is_empty r.app_path) then r.app_path else rest

abbrev pub or_nil : Option Bytes → Bytes
or_nil none = []
or_nil (some s) = s

unfoldable pub direct_event : List Rule → Option Rule → Query → Bytes → Event
unfolding direct_app
direct_event rs rule q dst_ip = record {
  app = elim rule [ some r ↦ r.app_path | none ↦ direct_app rs ];
  rule = elim rule [ some r ↦ r.name | none ↦ [] ];
  proxy = codes "direct";
  proxy_id = 0;
  domain = or_nil q.domain;
  dst_ip = dst_ip;
  dst_port = q.dst_port;
  action = codes "DIRECT";
  success = true;
}

unfoldable pub routed_event : Rule → Bytes → Query → Bytes → Bool → Event
unfolding action_str
routed_event r via_name q dst_ip success = record {
  app = if is_empty r.app_path then r.name else r.app_path;
  rule = r.name;
  proxy = via_name;
  proxy_id = r.proxy_id;
  domain = or_nil q.domain;
  dst_ip = dst_ip;
  dst_port = q.dst_port;
  action = action_str r.action;
  success = success;
}

-- `switch (proxy.type)`
unfoldable pub dial_proxy : Connectors → ProxyType → Proxy → Bytes → ℕ → Option ℕ
dial_proxy net socks5 p target port =
    net.socks5_connect p.host p.port target port p.username p.password
dial_proxy net socks4 p target port = net.socks4_connect p.host p.port target port p.username
dial_proxy net http p target port = net.http_connect p.host p.port target port p.username p.password
dial_proxy net ssh p target port = none

-- An attempt: `none` is an early `return -1`, otherwise `via_name` and the descriptor.
abbrev pub Attempt : Type 0
Attempt = Option (Bytes × Option ℕ)

abbrev pub via_proxy : Config → Connectors → ℕ → Bytes → ℕ → Attempt
via_proxy cfg net id target port = elim (cfg.proxy_get id) [
  | none ↦ none
  | some p ↦ if p.enabled then some (p.name, dial_proxy net p.type p target port) else none
]

abbrev pub via_chain : Config → Connectors → ℕ → Bytes → ℕ → Attempt
via_chain cfg net id target port = elim (cfg.chain_get id) [
  | none ↦ none
  | some c ↦
      if c.enabled then some (c.name, net.chain_connect c cfg.proxy_list target port) else none
]

unfoldable pub attempt : Config → Connectors → Action → Rule → Bytes → ℕ → Attempt
unfolding dial_proxy
attempt cfg net proxy r target port =
    if ltb 0 r.proxy_id then via_proxy cfg net r.proxy_id target port else none
attempt cfg net chain r target port =
    if ltb 0 r.chain_id then via_chain cfg net r.chain_id target port else none
attempt cfg net direct r target port = none
attempt cfg net block r target port = none
attempt cfg net reject r target port = none

-- The descriptor, and the entry that the attempt leaves in the log.
abbrev pub conclude : Attempt → Rule → Query → Bytes → Log → Outcome × Log
conclude none r q dst_ip log = (unrouted, log)
conclude (some (via_name, none)) r q dst_ip log =
    (unrouted, log_event log (routed_event r via_name q dst_ip false))
conclude (some (via_name, some fd)) r q dst_ip log =
    (descriptor fd, log_event log (routed_event r via_name q dst_ip true))

-- `(match_domain && match_domain[0]) ? match_domain : dst_ip`
abbrev pub target_of : Option Bytes → Bytes → Bytes
target_of none dst_ip = dst_ip
target_of (some d) dst_ip = if is_empty d then dst_ip else d

-- What follows the choice, by the action of the rule.
unfoldable pub follow :
    Config → Connectors → List Rule → Action → Rule → Query → Bytes → Log → Outcome × Log
unfolding attempt log_event routed_event direct_event
follow cfg net rs direct r q dst_ip log =
    (unrouted, log_event log (direct_event rs (some r) q dst_ip))
follow cfg net rs block r q dst_ip log = (blocked, log)
follow cfg net rs reject r q dst_ip log = (blocked, log)
follow cfg net rs proxy r q dst_ip log =
    conclude (attempt cfg net proxy r (target_of q.domain dst_ip) q.dst_port) r q dst_ip log
follow cfg net rs chain r q dst_ip log =
    conclude (attempt cfg net chain r (target_of q.domain dst_ip) q.dst_port) r q dst_ip log

unfoldable pub settle :
    Config → Connectors → List Rule → Option Rule → Query → Bytes → Log → Outcome × Log
unfolding follow direct_event log_event
settle cfg net rs none q dst_ip log = (unrouted, log_event log (direct_event rs none q dst_ip))
settle cfg net rs (some r) q dst_ip log = follow cfg net rs r.action r q dst_ip log

-- The query of `proxy_connect_for_tproxy`: the application is not known.
abbrev pub query_of : Option Bytes → Bytes → ℕ → Query
query_of domain dst_ip dst_port = record {
  app_path = none;
  domain = domain;
  dst_ip = some dst_ip;
  dst_port = dst_port;
}

module _ (libc : Libc) (cfg : Config) (net : Connectors) (rs : List Rule) where
  -- `proxy_connect_for_tproxy` at the time `now`, with the rules and the DNS cache as they stand.
  unfoldable pub proxy_connect : ℕ → List DnsEntry → Bytes → ℕ → Bytes → Log → Outcome × Log
  unfolding known_domain choose_rule settle
  proxy_connect now cache dst_ip dst_port domain log =
      let q = query_of (known_domain now cache dst_ip domain) dst_ip dst_port in
      settle cfg net rs (choose_rule libc rs q) q dst_ip log
