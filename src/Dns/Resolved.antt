-- ===== src/Dns/Resolved.antt =====
-- A query and its response on their way through `dns_callback` of dns.c.
use proxiflare.Prelude.{
  ℕ, ◌+◌, ◌*◌, ◌/◌, ◌%◌, ◌<◌, ◌≡◌, ◌≢◌, refl, ap, true, false, List, [], ◌∷◌, ◌++◌, leb, ltb, Bytes,
  length, arith, take, drop, At, At-skip, At-move, c_text-whole, contains_byte,
}
use proxiflare.Types.{Rule}
use proxiflare.Libc.{Libc}
use proxiflare.Rules.Match.{domain_max}
use proxiflare.Sni.Reader.{done, copy}
use proxiflare.Dns.{DnsEntry}
use proxiflare.Dns.Names.{name_bytes, dotted, AreLabels, parse_qname-name_bytes}
use proxiflare.Dns.Wire.{
  ARecord, address, ttl_of, record_bytes, records_bytes, Envelope, IsSized, message_bytes,
  packet_bytes, read-u8, read-u16be, read-first, read-owner, read-record, At-message, message_found,
}
use proxiflare.Dns.Callback.{
  Ntop, clamp_ttl, read_answer, question, resolve_text, use_answer, answers, on_name, on_message,
  dns_callback,
}

-- Labels whose text fits `char domain[PF_DOMAIN_MAX]` and has no NUL; there is one at least.
pub record IsName (ls : List Bytes) : Type 0 where
  pub labels : AreLabels ls
  pub some_label : ls ≢ []
  pub short : length (dotted ls) < domain_max
  pub no_nul : contains_byte 0 (dotted ls) ≡ false

-- The offset behind a question that starts at `off`.
abbrev pub behind : ℕ → List Bytes → ℕ
behind off ls = off + length (name_bytes ls) + 4

module _ (d : Bytes) (off : ℕ) (ls : List Bytes) (q rest : Bytes) (name : IsName ls)
    (asked : length q ≡ 4) (h : At d off (name_bytes ls ++ (q ++ rest))) where
  pub question_read : question d off 1 ≡ done (dotted ls, behind off ls)
  unfolding question
  question_read =
      let a : At d (off + length (name_bytes ls)) (q ++ rest) =
        At-skip (name_bytes ls) off (length (name_bytes ls)) (q ++ rest) refl h in
      let e = a.ends in
      rw
        (
          h.rest_is,
          parse_qname-name_bytes ls (q ++ rest) domain_max name.labels name.short,
          c_text-whole (dotted ls) name.no_nul,
        )
        (ap (λ (n : ℕ). done (dotted ls, n + 4)) (omega arith))

  pub At-behind : At d (behind off ls) rest
  At-behind =
      At-skip q (off + length (name_bytes ls)) 4 rest asked
        (At-skip (name_bytes ls) off (length (name_bytes ls)) (q ++ rest) refl h)

module _ (libc : Libc) (ntop : Ntop) (rules : List Rule) (now : ℕ) where
  -- The records of a response, one after the other.
  unfoldable pub resolve_records : List DnsEntry → Bytes → List ARecord → List DnsEntry
  unfolding resolve_text
  resolve_records cache domain [] = cache
  resolve_records cache domain (r ∷ rs) =
      resolve_records
        (resolve_text libc ntop rules now cache domain (clamp_ttl (ttl_of r)) (ntop.v4 (address r)))
        domain rs

  use-record :
      (d : Bytes) (off : ℕ) (domain : Bytes) (cache : List DnsEntry) (r : ARecord) (rest : Bytes)
      → At d off (record_bytes r rest)
      → use_answer libc ntop rules now d
          (record { rtype = 1; rttl = ttl_of r; rdlength = 4; rdata = off + 2 + 10 })
          domain
          cache
        ≡ done (
            resolve_text libc ntop rules now cache domain
              (clamp_ttl (ttl_of r))
              (ntop.v4 (address r)))
  unfolding use_answer copy
  use-record d off domain cache r rest h =
      let w = record_bytes r rest in
      let a : At d (off + 2 + 10) (drop 12 w) =
        At-move (off + 12) (off + 2 + 10) (drop 12 w) (omega arith)
          (At-skip (take 12 w) off 12 (drop 12 w) refl h) in
      let fits : ltb (length d) (off + 2 + 10 + 4) ≡ false = let e = a.ends in ground arith in
      rw (fits, a.rest_is) refl

  pub answers-records :
      (rs : List ARecord) (d : Bytes) (off : ℕ) (domain rest : Bytes) (cache : List DnsEntry)
      → At d off (records_bytes rs rest)
      → answers libc ntop rules now (length rs) d off domain cache
        ≡ done (resolve_records cache domain rs)
  unfolding answers read_answer resolve_records
  answers-records [] d off domain rest cache h = refl
  answers-records (r ∷ rs) d off domain rest cache h =
      let more = records_bytes rs rest in
      let inside : ltb off (length d) ≡ true = let e = h.ends in ground arith in
      let next : At d (off + 2 + 10 + 4) more =
        At-move (off + 16) (off + 2 + 10 + 4) more (omega arith)
          (At-skip (take 16 (record_bytes r more)) off 16 more refl h) in
      rw
        (
          inside,
          answers,
          read-owner d off (length d) r.pointer (drop 2 (record_bytes r more)) h,
          read-record d off r more (off + 2) h refl,
          use-record d off domain cache r more h,
        )
        (answers-records rs d (off + 2 + 10 + 4) domain rest
          (resolve_text libc ntop rules now cache domain (clamp_ttl (ttl_of r))
            (ntop.v4 (address r)))
          next)

-- A packet with one question for the labels `ls` comes to what `on_name` does with their text.
module _ (libc : Libc) (ntop : Ntop) (rules : List Rule) (now : ℕ) (v : Envelope)
    (sized : IsSized v) (flags_hi ancount : ℕ) (ls : List Bytes) (q rest : Bytes) (name : IsName ls)
    (asked : length q ≡ 4) (few : ancount < 65536) where
  abbrev pub m : Bytes
  m = message_bytes v flags_hi ancount ls q rest

  abbrev pub packet : Bytes
  packet = packet_bytes v m

  pub At-name : At packet 40 (name_bytes ls ++ (q ++ rest))
  At-name = At-skip (take 12 m) 28 12 (name_bytes ls ++ (q ++ rest)) refl (At-message v sized m)

  pub At-records : At packet (behind 40 ls) rest
  At-records = At-behind packet 40 ls q rest name asked At-name

  pub callback-packet :
      (cache : List DnsEntry)
      → dns_callback libc ntop rules now packet cache
        ≡ on_name libc ntop rules now packet
            (leb 0x80 flags_hi)
            ancount
            (dotted ls, behind 40 ls)
            cache
  unfolding dns_callback on_message
  callback-packet cache =
      let h = At-message v sized m in
      let n : (ancount / 256 * 256 + ancount % 256) % 65536 ≡ ancount = omega arith in
      rw
        (
          message_found v sized m (omega arith),
          read-u8 packet 28 2 flags_hi m h refl,
          read-first packet 28 v.id0 v.id1 (drop 2 m) h,
          read-u16be packet 28 4 0 1 m h refl refl,
          read-u16be packet 28 6 (ancount / 256) (ancount % 256) m h refl refl,
          n,
          question_read packet 40 ls q rest name asked At-name,
        )
        refl
