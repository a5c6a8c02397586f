-- ===== src/Dns/Exchange.antt =====
-- The steps of a query and its response through the cache of dns.c.
use proxiflare.Prelude.{
  ℕ, ◌+◌, ◌-◌, ◌≤◌, ◌<◌, ◌≡◌, ◌≢◌, refl, ap, ◌∙◌, true, false, Option, none, some, List, [], ◌∷◌,
  ◌==◌, leb, Bytes, length, arith, take-all, length-append, set, lower,
}
use proxiflare.Prelude.Int.{negsuc, to_int}
use proxiflare.Types.{Rule, direct}
use proxiflare.Libc.{Libc}
use proxiflare.Rules.{rules_match}
use proxiflare.Rules.Match.{domain_max}
use proxiflare.Sni.Reader.{done}
use proxiflare.Dns.{DnsEntry, find_slot, lookup, new_entry, cache_ttl}
use proxiflare.Dns.Names.{dotted, dotted_tail, AreLabels}
use proxiflare.Dns.Lookup.{IsFor, lookup-IsFor, cache_add-some, slot_fits, get-set}
use proxiflare.Dns.Unique.{IsLiveFor}
use proxiflare.Dns.Held.{find_slot-set, set-set, resolve-held}
use proxiflare.Dns.Wire.{
  ARecord, address, ttl_of, records_bytes, Envelope, IsSized, message_bytes, packet_bytes,
}
use proxiflare.Dns.Callback.{
  Ntop, clamp_ttl, domain_query, add_for, add_matched, resolve_text, on_name, dns_callback,
}
use proxiflare.Dns.Resolved.{
  IsName, behind, resolve_records, answers-records, At-records, callback-packet,
}

-- The entry of a domain before it has an address, for the rule that was found.
abbrev pub matched_entry : ℕ → Bytes → Option Rule → DnsEntry
matched_entry now domain none = new_entry now domain [] (negsuc 0) direct (negsuc 0) (negsuc 0)
matched_entry now domain (some r) =
    new_entry now domain [] (to_int r.id) r.action (to_int r.proxy_id) (to_int r.chain_id)

-- The entry with the address of the last of some records.
abbrev pub last_of : ARecord → List ARecord → ARecord
last_of r [] = r
last_of r (s ∷ rs) = last_of s rs

abbrev pub resolved_entry : ℕ → DnsEntry → Bytes → ℕ → DnsEntry
resolved_entry now e ip ttl = record e { resolved_ip = ip; expires = now + clamp_ttl ttl }

-- inet_ntop prints every address of four bytes, in at most 15 characters.
pub record Prints (ntop : Ntop) : Type 0 where
  pub text : Bytes → Bytes
  pub printed : (a : Bytes) → length a ≡ 4 → ntop.v4 a ≡ some (text a)
  pub short : (a : Bytes) → length a ≡ 4 → length (text a) ≤ 15
  pub nonempty : (a : Bytes) → text a ≢ []

add_for-slot :
    (now : ℕ) (cache : List DnsEntry) (domain : Bytes) (r : Option Rule) (slot : ℕ)
    → find_slot now cache domain ≡ some slot
    → add_for now cache domain [] r ≡ set cache slot (matched_entry now domain r)
add_for-slot now cache domain none slot f =
    cache_add-some now cache domain [] (negsuc 0) direct (negsuc 0) (negsuc 0) slot f
add_for-slot now cache domain (some r) slot f =
    cache_add-some now cache domain [] (to_int r.id) r.action (to_int r.proxy_id)
      (to_int r.chain_id) slot f

matched_entry-IsLiveFor :
    (now now' : ℕ) (domain : Bytes) (r : Option Rule)
    → length domain < domain_max
    → now' < now + cache_ttl
    → IsLiveFor now' domain (matched_entry now domain r)
matched_entry-IsLiveFor now now' domain none lt soon = record {
  live = ground arith;
  same = ap lower (take-all (domain_max - 1) domain (omega arith));
}
matched_entry-IsLiveFor now now' domain (some r) lt soon = record {
  live = ground arith;
  same = ap lower (take-all (domain_max - 1) domain (omega arith));
}

module _ (libc : Libc) (ntop : Ntop) (rules : List Rule) (now : ℕ) (prints : Prints ntop) where
  resolved-IsLiveFor :
      (domain : Bytes) (e : DnsEntry) (ip : Bytes) (ttl : ℕ)
      → IsLiveFor now domain e
      → IsLiveFor now domain (resolved_entry now e ip ttl)
  resolved-IsLiveFor domain e ip ttl l =
      let h = l.live in record { live = ground arith; same = l.same }

  first_set :
      (cache : List DnsEntry) (domain : Bytes) (slot : ℕ) (e : DnsEntry) (r : ARecord)
      → slot < length cache
      → IsLiveFor now domain e
      → find_slot now (set cache slot e) domain ≡ some slot
      → resolve_text libc ntop rules now
          (set cache slot e)
          domain
          (clamp_ttl (ttl_of r))
          (ntop.v4 (address r))
        ≡ set cache slot (resolved_entry now e (prints.text (address r)) (ttl_of r))
  unfolding resolve_text
  first_set cache domain slot e r lt l f =
      let ip = prints.text (address r) in
      let fits = prints.short (address r) refl in
      rw
        (
          prints.printed (address r) refl,
          resolve-held libc ntop rules now (set cache slot e) domain ip (clamp_ttl (ttl_of r)) slot
              e f (get-set cache slot e lt) l,
          take-all 45 ip (omega arith),
        )
        (set-set cache slot e (resolved_entry now e ip (ttl_of r)))

  -- Each record sets the address of the entry anew.
  records_set :
      (cache : List DnsEntry) (domain : Bytes) (slot : ℕ) (e : DnsEntry) (r : ARecord)
      (rs : List ARecord)
      → slot < length cache
      → IsLiveFor now domain e
      → find_slot now (set cache slot e) domain ≡ some slot
      → resolve_records libc ntop rules now (set cache slot e) domain (r ∷ rs)
        ≡ set cache slot
            (resolved_entry now e (prints.text (address (last_of r rs))) (ttl_of (last_of r rs)))
  unfolding resolve_records
  records_set cache domain slot e r [] lt l f = first_set cache domain slot e r lt l f
  records_set cache domain slot e r (s ∷ rs) lt l f =
      let v = resolved_entry now e (prints.text (address r)) (ttl_of r) in
      let lv = resolved-IsLiveFor domain e (prints.text (address r)) (ttl_of r) l in
      let fv : find_slot now (set cache slot v) domain ≡ some slot =
        rw (← set-set cache slot e v)
          (find_slot-set now now domain (set cache slot e) slot v (omega arith) lv f) in
      rw (first_set cache domain slot e r lt l f) (records_set cache domain slot v s rs lt lv fv)

module _ (libc : Libc) (ntop : Ntop) (rules : List Rule) (now : ℕ) (v : Envelope)
    (sized : IsSized v) (ls : List Bytes) (q : Bytes) (name : IsName ls)
    (asked : length q ≡ 4) where
  not_empty : (length (dotted ls) == 0) ≡ false
  not_empty = nonempty ls name.labels name.some_label
    where
      nonempty : (ls : List Bytes) → AreLabels ls → ls ≢ [] → (length (dotted ls) == 0) ≡ false
      nonempty [] h ne = absurd (ne refl)
      nonempty (l ∷ ls) h ne =
          let a = length-append l (dotted_tail ls) in let b = h.0.0 in ground arith

  pub query-matched :
      (flags_hi : ℕ) (cache : List DnsEntry) (slot : ℕ)
      → flags_hi < 0x80
      → find_slot now cache (dotted ls) ≡ some slot
      → dns_callback libc ntop rules now (packet_bytes v (message_bytes v flags_hi 0 ls q [])) cache
        ≡ done (
            set cache slot
              (matched_entry now (dotted ls) (rules_match libc rules (domain_query (dotted ls)))))
  unfolding on_name add_matched
  query-matched flags_hi cache slot lt f =
      let query : leb 0x80 flags_hi ≡ false = ground arith in
      callback-packet libc ntop rules now v sized flags_hi 0 ls q [] name asked (omega arith) cache
      ∙ rw (not_empty, query)
          (ap done (
            add_for-slot now cache (dotted ls) (rules_match libc rules (domain_query (dotted ls)))
              slot f))

  pub response-resolved :
      (prints : Prints ntop) (flags_hi : ℕ) (cache : List DnsEntry) (slot : ℕ) (e : DnsEntry)
      (r : ARecord) (rs : List ARecord)
      → 0x80 ≤ flags_hi
      → length (r ∷ rs) < 65536
      → slot < length cache
      → IsLiveFor now (dotted ls) e
      → find_slot now (set cache slot e) (dotted ls) ≡ some slot
      → dns_callback libc ntop rules now
          (packet_bytes v
            (message_bytes v flags_hi (length (r ∷ rs)) ls q (records_bytes (r ∷ rs) [])))
          (set cache slot e)
        ≡ done (
            set cache slot
              (resolved_entry now e (prints.text (address (last_of r rs))) (ttl_of (last_of r rs))))
  unfolding on_name
  response-resolved prints flags_hi cache slot e r rs le few lt l f =
      let response : leb 0x80 flags_hi ≡ true = ground arith in
      let n = length (r ∷ rs) in
      let w = records_bytes (r ∷ rs) [] in
      callback-packet libc ntop rules now v sized flags_hi n ls q w name asked few
        (set cache slot e)
      ∙ rw (not_empty, response)
          (answers-records libc ntop rules now (r ∷ rs)
              (packet_bytes v (message_bytes v flags_hi n ls q w)) (behind 40 ls) (dotted ls) []
              (set cache slot e)
              (At-records libc ntop rules now v sized flags_hi n ls q w name asked few)
            ∙ ap done (records_set libc ntop rules now prints cache (dotted ls) slot e r rs lt l f))

-- What the packets leave, by the entries that the code makes.
pub answered :
    (libc : Libc) (ntop : Ntop) (prints : Prints ntop) (rules : List Rule) (now now' : ℕ)
    (v v' : Envelope) (ls : List Bytes) (q : Bytes) (flags flags' : ℕ) (cache : List DnsEntry)
    (slot : ℕ) (r : ARecord) (rs : List ARecord)
    → IsSized v
    → IsSized v'
    → IsName ls
    → length q ≡ 4
    → flags < 0x80
    → 0x80 ≤ flags'
    → length (r ∷ rs) < 65536
    → now ≤ now'
    → now' < now + cache_ttl
    → find_slot now cache (dotted ls) ≡ some slot
    → let matched =
        matched_entry now (dotted ls) (rules_match libc rules (domain_query (dotted ls))) in
      let last = last_of r rs in
      let final = resolved_entry now' matched (prints.text (address last)) (ttl_of last) in
      (dns_callback libc ntop rules now (packet_bytes v (message_bytes v flags 0 ls q [])) cache
        ≡ done (set cache slot matched))
      × (dns_callback libc ntop rules now'
            (packet_bytes v'
              (message_bytes v' flags' (length (r ∷ rs)) ls q (records_bytes (r ∷ rs) [])))
            (set cache slot matched)
          ≡ done (set cache slot final))
      × ((e : DnsEntry) × (lookup now' (set cache slot final) (prints.text (address last)) ≡ some e)
          × IsFor now' (prints.text (address last)) e)
answered libc ntop prints rules now now' v v' ls q flags flags' cache slot r rs sized sized' name
      asked lt le few later soon f =
    let domain = dotted ls in
    let rule = rules_match libc rules (domain_query domain) in
    let matched = matched_entry now domain rule in
    let last = last_of r rs in
    let ip = prints.text (address last) in
    let final = resolved_entry now' matched ip (ttl_of last) in
    let inside = slot_fits now cache domain slot f in
    let live = matched_entry-IsLiveFor now now' domain rule name.short soon in
    let held = find_slot-set now now' domain cache slot matched later live f in
    let live' =
      resolved-IsLiveFor libc ntop rules now' prints domain matched ip (ttl_of last) live in
    (
      query-matched libc ntop rules now v sized ls q name asked flags cache slot lt f,
      response-resolved libc ntop rules now' v' sized' ls q name asked prints flags' cache slot
          matched r rs le few inside live held,
      lookup-IsFor now' (set cache slot final) ip slot final (prints.nonempty (address last))
          (get-set cache slot final inside) (record { live = live'.live; address = refl }),
    )
