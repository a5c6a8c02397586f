-- ===== src/Tests/OfTproxy.antt =====
-- Redirected connections under the rules of `OfRules`.
use proxiflare.Prelude.{
  ℕ, ◌≤◌, ◌≡◌, ◌⊎◌, inl, inr, refl, true, false, Option, none, some, List, [], ◌∷◌, ◌++◌, ◌==◌,
  if◌then◌else◌, Bytes, codes, contains_byte, arith,
}
use proxiflare.Types.{Rule}
use proxiflare.Sni.Wire.{Hello, IsHello, encode}
use proxiflare.Rules.{Query}
use proxiflare.Rules.Domain.{IsUnder}
use proxiflare.Log.{Log, empty_log}
use proxiflare.Route.{
  Config, Connectors, unrouted, known_domain, choose_rule, query_of, proxy_connect, is_direct,
}
use proxiflare.Route.Diverts.{Diverts, IsOpen, FirstOr}
use proxiflare.Route.Choice.{first_some, routed, choose_rule-preferred, choose_rule_routed}
use proxiflare.Rules.First.{Chosen}
use proxiflare.Tproxy.{
  Tproxy, init, find_free_slot, peek_domain, Arrival, arrived, dropped, relayed, claim,
  new_connection, tproxy_accept, Callback, max_connections,
}
use proxiflare.Tproxy.Relay.{Write, wrote, retry, chunk, pump}
use proxiflare.Tproxy.Counted.{IsCounted}
use proxiflare.Tproxy.Slots.{start, next, accepts, Reach-IsCounted}
use proxiflare.Tproxy.Pump.{pump_prefix}
use proxiflare.Tproxy.Leak.{tproxy_accept-Unusable}
use proxiflare.Tproxy.Blocked.{tproxy_accept_blocked}
use proxiflare.Tests.OfRules.{libc, browser_rule, ads_rule}
use proxiflare.Tests.OfSni.{hello}

abbrev pub rules : List Rule
rules = ads_rule ∷ browser_rule ∷ []

abbrev config : Config
config = record { proxy_get = λ id. none; chain_get = λ id. none; proxy_list = [] }

abbrev connectors : Connectors
connectors = record {
  socks5_connect = λ host port target dst user pass. none;
  socks4_connect = λ host port target dst user. none;
  http_connect = λ host port target dst user pass. none;
  chain_connect = λ c ps target dst. none;
}

abbrev address : Bytes
address = codes "10.0.0.9"

abbrev to_address : Query
to_address = query_of none address 443

chosen : choose_rule libc rules to_address ≡ some browser_rule
unfolding choose_rule
chosen = refl

choose_rule-preferred_example :
    (matched : Option Rule) × (specific : Option Rule) × (catchall : Option Rule) × Chosen libc
      rules to_address matched
    × FirstOr (λ r. Diverts libc to_address r × (¬ IsOpen r)) rules specific
    × FirstOr (λ r. Diverts libc to_address r × IsOpen r) rules catchall
    × (choose_rule libc rules to_address
        ≡ first_some (routed matched) (first_some specific catchall))
choose_rule-preferred_example = choose_rule-preferred libc to_address rules

choose_rule_routed_example :
    (r' : Rule) × (choose_rule libc rules to_address ≡ some r') × (is_direct r'.action ≡ false)
choose_rule_routed_example =
    choose_rule_routed libc to_address (ads_rule ∷ []) [] browser_rule refl refl

-- A ClientHello for "x.ads.ch".
abbrev ads_hello : Hello
ads_hello = record hello { name = codes "x.ads.ch" }

ads_hello-IsHello : IsHello ads_hello
ads_hello-IsHello = record {
  hs_len_size = refl;
  version_size = refl;
  random_size = refl;
  others = (record { not_sni = omega arith; type_fits = omega arith; body_fits = omega arith }, tt);
  has_name = λ e. cc;
  record_fits = omega arith;
}

x-IsUnder : IsUnder (codes "ads.ch") (codes "x.ads.ch")
unfolding IsUnder
x-IsUnder = inr (codes "x", codes ".ads.ch", (λ e. cc), refl, refl)

abbrev tls_arrival : Arrival
tls_arrival = record {
  cfd = 9;
  original = some (address, 443);
  peeked = encode ads_hello;
  reached = some 10;
}

abbrev plain_arrival : Arrival
plain_arrival = record tls_arrival { peeked = codes "GET / HTTP/1.1" }

room : find_free_slot init ≡ some 0
unfolding find_free_slot init
room = refl

tproxy_accept_blocked_example :
    tproxy_accept
      (some (proxy_connect libc config connectors rules 0 []))
      init
      (arrived tls_arrival)
      empty_log
    ≡ ((dropped, init), empty_log)
unfolding contains_byte
tproxy_accept_blocked_example =
    tproxy_accept_blocked libc config connectors (browser_rule ∷ []) ads_rule (codes "ads.ch")
      address 443 ads_hello 0 [] init 0 tls_arrival empty_log refl refl refl refl refl refl
      (λ e. cc) (omega arith) refl x-IsUnder ads_hello-IsHello refl (omega arith) refl refl room

plain_chosen :
    choose_rule libc rules
      (query_of (known_domain 0 [] address (peek_domain (codes "GET / HTTP/1.1"))) address 443)
    ≡ some browser_rule
unfolding known_domain peek_domain choose_rule
plain_chosen = refl

tproxy_accept-Unusable_example :
    (tproxy_accept
      (some (proxy_connect libc config connectors rules 0 []))
      init
      (arrived plain_arrival)
      empty_log).0
    ≡ (relayed 0, claim init 0 (new_connection 9 10 address 443 (codes "GET / HTTP/1.1")))
tproxy_accept-Unusable_example =
    tproxy_accept-Unusable libc config connectors rules 0 [] address 443 init 0 10 plain_arrival
      empty_log browser_rule refl refl room plain_chosen refl (inl refl)

abbrev no_route : Callback Log
no_route dst_ip dst_port domain log = (unrouted, log)

abbrev one_accepted : Tproxy
unfolding tproxy_accept
one_accepted = (tproxy_accept (some no_route) init (arrived plain_arrival) empty_log).0.1

Reach-IsCounted_example : IsCounted one_accepted × (one_accepted.conn_count ≤ max_connections)
unfolding one_accepted
Reach-IsCounted_example =
    Reach-IsCounted Log
      (next start (accepts (some no_route) (arrived plain_arrival) empty_log refl))

-- Two bytes are taken, and then the buffer is full.
abbrev full_after_two : ℕ → Write
full_after_two i = if i == 0 then wrote 2 else retry

still_alive : (pump full_after_two (chunk 72 (codes "ey"))).alive ≡ true
unfolding pump
still_alive = refl

pump_prefix_example :
    ((pump full_after_two (chunk 72 (codes "ey"))).counted ≡ 72 ∷ codes "ey")
    × ((rest : Bytes) × (72 ∷ codes "ey"
          ≡ (pump full_after_two (chunk 72 (codes "ey"))).written ++ rest)
        × ((rest ≡ []) ⊎ ((i : ℕ) × (full_after_two i ≡ retry))))
pump_prefix_example = pump_prefix full_after_two 72 (codes "ey") still_alive
