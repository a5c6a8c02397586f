-- ===== src/Tests/OfDns.antt =====
-- DNS packets on their way through the daemon.
use proxiflare.Prelude.{
  ℕ, ◌+◌, ◌≡◌, ◌≢◌, refl, false, Option, none, some, List, [], ◌∷◌, Bytes, codes, take,
  contains_byte, length-take, replicate, set, arith,
}
use proxiflare.Prelude.Int.{pos, negsuc}
use proxiflare.Types.{Rule, direct}
use proxiflare.Rules.{rules_match}
use proxiflare.Sni.Reader.{done, fault}
use proxiflare.Dns.{DnsEntry, lookup, find_slot, cache_add, cache_size}
use proxiflare.Dns.Lookup.{IsFor}
use proxiflare.Dns.Callback.{Ntop, dns_callback}
use proxiflare.Dns.Kept.{dns_callback-ne-fault}
use proxiflare.Dns.Unique.{IsUnique, start, added, Reach-IsUnique}
use proxiflare.Dns.Wire.{ARecord, Envelope, packet_bytes, message_bytes, records_bytes, address}
use proxiflare.Dns.Exchange.{Prints}
use proxiflare.Dns.Answered.{stored, IsCut, query_and_response}
use proxiflare.Tests.OfRules.{libc}
use proxiflare.Tests.OfTproxy.{rules}

abbrev raw_text : Bytes → Bytes
raw_text a = b'@' ∷ take 4 a

abbrev raw_ntop : Ntop
raw_ntop = record { v4 = λ a. some (raw_text a); v6 = λ a. some (raw_text a) }

raw_prints : Prints raw_ntop
raw_prints = record {
  text = raw_text;
  printed = λ a h. refl;
  short = λ a h. omega (arith, length-take 4 a);
  nonempty = λ a e. cc;
}

abbrev free_entry : DnsEntry
free_entry = record {
  domain = [];
  resolved_ip = [];
  rule_id = pos 0;
  action = direct;
  proxy_id = pos 0;
  chain_id = pos 0;
  expires = 0;
  used = false;
}

abbrev small_cache : List DnsEntry
small_cache = replicate 3 free_entry

abbrev envelope : Envelope
envelope = record {
  ip_front = replicate 8 0;
  ip_back = replicate 10 1;
  udp = replicate 8 2;
  id0 = 7;
  id1 = 8;
  flags_lo = 0;
  ns0 = 0;
  ns1 = 0;
  ar0 = 0;
  ar1 = 0;
}

abbrev host : List Bytes
host = codes "ads" ∷ codes "ch" ∷ []

abbrev in_a : Bytes
in_a = 0 ∷ 1 ∷ 0 ∷ 1 ∷ []

abbrev a_record : ℕ → ARecord
a_record x = record {
  pointer = 12;
  t0 = 0;
  t1 = 0;
  t2 = 1;
  t3 = 0;
  x0 = 10;
  x1 = 0;
  x2 = 0;
  x3 = x;
}

abbrev query_packet : Bytes
query_packet = packet_bytes envelope (message_bytes envelope 1 0 host in_a [])

abbrev response_packet : Bytes
response_packet =
    packet_bytes envelope
      (message_bytes envelope 0x81 2 host in_a (records_bytes (a_record 1 ∷ a_record 2 ∷ []) []))

abbrev found : Option Rule
found =
    rules_match libc rules
      (record { app_path = none; domain = some (codes "ads.ch"); dst_ip = none; dst_port = 0 })

abbrev first : DnsEntry
first = stored 400 (codes "ads.ch") [] found

abbrev last_text : Bytes
last_text = raw_text (address (a_record 2))

query_and_response_example :
    (ttl : ℕ) × IsCut 256 ttl
    × (let final = stored (101 + ttl) (codes "ads.ch") last_text found in
        (dns_callback libc raw_ntop rules 100 query_packet small_cache
          ≡ done (set small_cache 0 first))
        × (dns_callback libc raw_ntop rules 101 response_packet (set small_cache 0 first)
            ≡ done (set small_cache 0 final))
        × ((e : DnsEntry) × (lookup 101 (set small_cache 0 final) last_text ≡ some e)
            × IsFor 101 last_text e))
unfolding find_slot contains_byte raw_prints
query_and_response_example =
    query_and_response libc raw_ntop raw_prints rules 100 101 envelope envelope host in_a 1 0x81
      small_cache 0 (a_record 1) (a_record 2 ∷ [])
      (record { front = refl; back = refl; header = refl })
      (record { front = refl; back = refl; header = refl })
      (record { labels = omega arith; some_label = λ e. cc; short = omega arith; no_nul = refl })
      refl (omega arith) (omega arith) (omega arith) (omega arith) (omega arith) refl

dns_callback-ne-fault_example :
    dns_callback libc raw_ntop rules 0 (0x45 ∷ 0 ∷ 0 ∷ []) small_cache ≢ fault
dns_callback-ne-fault_example =
    dns_callback-ne-fault libc raw_ntop rules 0 (0x45 ∷ 0 ∷ 0 ∷ []) small_cache

abbrev full_cache : List DnsEntry
full_cache = replicate cache_size free_entry

Reach-IsUnique_example :
    IsUnique 10 (
      cache_add 10 full_cache
        (codes "a.ch")
        (codes "10.0.0.1")
        (pos 1)
        direct
        (negsuc 0)
        (negsuc 0))
Reach-IsUnique_example = Reach-IsUnique {libc = libc} {ntop = raw_ntop} (
    added (codes "a.ch") (codes "10.0.0.1") (pos 1) direct (negsuc 0) (negsuc 0)
      (start 0 free_entry refl) (omega arith) (omega arith))
