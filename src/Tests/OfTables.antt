-- ===== src/Tests/OfTables.antt =====
-- The counters of stats.c, and the names and the cache of dns.c.
use proxiflare.Prelude.{
  ◌≡◌, refl, inr, true, false, some, List, [], ◌∷◌, ◌++◌, Bytes, codes, replicate, arith,
}
use proxiflare.Prelude.Int.{pos}
use proxiflare.Types.{direct}
use proxiflare.Stats.{Entry, no_entries, update, avg_latency}
use proxiflare.Stats.Counts.{counted, update-counted}
use proxiflare.Sni.Reader.{done}
use proxiflare.Dns.{DnsEntry, parse_qname, find_slot, lookup}
use proxiflare.Dns.Names.{name_bytes, parse_qname-name_bytes}

abbrev one_proxy : List Entry
unfolding update
one_proxy = update no_entries (pos 3) 10 20 (pos 40)

average : avg_latency (counted (update one_proxy (pos 3) 1 2 (pos 60)) (pos 3)) ≡ 50
unfolding avg_latency one_proxy update
average = refl

update-counted_example : counted (update no_entries (pos 3) 10 20 (pos 40)) (pos 3) ≡ record {
  proxy_id = pos 3;
  bytes_tx = 10;
  bytes_rx = 20;
  connections = 1;
  total_latency_ms = 40;
  latency_count = 1;
}
update-counted_example = update-counted no_entries (pos 3) 10 20 (pos 40) (inr (omega arith))

abbrev labels : List Bytes
labels = codes "www" ∷ codes "a" ∷ codes "ch" ∷ []

parse_qname-name_bytes_example :
    parse_qname (name_bytes labels ++ (0 ∷ 1 ∷ 0 ∷ 1 ∷ [])) 253
    ≡ done (codes "www.a.ch", some (0 ∷ 1 ∷ 0 ∷ 1 ∷ []))
parse_qname-name_bytes_example =
    parse_qname-name_bytes labels (0 ∷ 1 ∷ 0 ∷ 1 ∷ []) 253
      ((omega arith, omega arith), ((omega arith, omega arith), ((omega arith, omega arith), tt)))
      (omega arith)

abbrev empty_cache : List DnsEntry
empty_cache = replicate 3 (record {
  domain = [];
  resolved_ip = [];
  rule_id = pos 0;
  action = direct;
  proxy_id = pos 0;
  chain_id = pos 0;
  expires = 0;
  used = false;
})

free_slot : find_slot 1000 empty_cache (codes "a.ch") ≡ some 0
unfolding find_slot
free_slot = refl

abbrev known : DnsEntry
known = record {
  domain = codes "a.ch";
  resolved_ip = codes "10.0.0.9";
  rule_id = pos 1;
  action = direct;
  proxy_id = pos 0;
  chain_id = pos 0;
  expires = 1300;
  used = true;
}

known_found : lookup 1000 (known ∷ []) (codes "10.0.0.9") ≡ some known
unfolding lookup
known_found = refl
