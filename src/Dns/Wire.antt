-- ===== src/Dns/Wire.antt =====
-- DNS over UDP on the wire (RFC 791, 768 and 1035), and what dns.c reads of it.
use proxiflare.Prelude.{
  ℕ, suc, ◌+◌, ◌*◌, ◌/◌, ◌%◌, ◌^◌, ◌≤◌, ◌≡◌, refl, true, false, some, List, [], ◌∷◌, ◌++◌, ltb,
  Bytes, length, arith, drop, get_elem?, At, At-start, At-nth, At-skip, At-suc, At-move,
}
use proxiflare.Sni.Reader.{done, u8, u16be, u8-done}
use proxiflare.Dns.Names.{name_bytes}
use proxiflare.Dns.Callback.{owner_loop, read_fixed, find_message}

-- An A record whose owner is a pointer.
pub record ARecord : Type 0 where
  pub pointer : ℕ
  pub t0 : ℕ
  pub t1 : ℕ
  pub t2 : ℕ
  pub t3 : ℕ
  pub x0 : ℕ
  pub x1 : ℕ
  pub x2 : ℕ
  pub x3 : ℕ

abbrev pub address : ARecord → Bytes
address r = r.x0 ∷ r.x1 ∷ r.x2 ∷ r.x3 ∷ []

abbrev pub ttl_of : ARecord → ℕ
ttl_of r = r.t0 * 2 ^ 24 + r.t1 * 2 ^ 16 + r.t2 * 2 ^ 8 + r.t3

-- A record, and what is behind it.
abbrev pub record_bytes : ARecord → Bytes → Bytes
record_bytes r rest =
    0xC0 ∷ r.pointer ∷ 0 ∷ 1 ∷ 0 ∷ 1 ∷ r.t0 ∷ r.t1 ∷ r.t2 ∷ r.t3 ∷ 0 ∷ 4 ∷ r.x0 ∷ r.x1 ∷ r.x2 ∷ r.x3
    ∷ rest

abbrev pub records_bytes : List ARecord → Bytes → Bytes
records_bytes [] rest = rest
records_bytes (r ∷ rs) rest = record_bytes r (records_bytes rs rest)

-- What surrounds a message: the IPv4 header without options but for its first byte and its protocol,
-- the UDP header, and the parts of the DNS header that are not read.
pub record Envelope : Type 0 where
  pub ip_front : Bytes
  pub ip_back : Bytes
  pub udp : Bytes
  pub id0 : ℕ
  pub id1 : ℕ
  pub flags_lo : ℕ
  pub ns0 : ℕ
  pub ns1 : ℕ
  pub ar0 : ℕ
  pub ar1 : ℕ

pub record IsSized (v : Envelope) : Type 0 where
  pub front : length v.ip_front ≡ 8
  pub back : length v.ip_back ≡ 10
  pub header : length v.udp ≡ 8

-- A message with one question for the labels `ls`, of type and class `q`.
abbrev pub message_bytes : Envelope → ℕ → ℕ → List Bytes → Bytes → Bytes → Bytes
message_bytes v flags_hi ancount ls q rest =
    v.id0
    ∷ v.id1
    ∷ flags_hi
    ∷ v.flags_lo
    ∷ 0
    ∷ 1
    ∷ ancount / 256
    ∷ ancount % 256
    ∷ v.ns0
    ∷ v.ns1
    ∷ v.ar0
    ∷ v.ar1
    ∷ (name_bytes ls ++ (q ++ rest))

abbrev pub packet_bytes : Envelope → Bytes → Bytes
packet_bytes v message = 0x45 ∷ (v.ip_front ++ (17 ∷ (v.ip_back ++ (v.udp ++ message))))

module _ (d : Bytes) (off : ℕ) where
  pub read-u8 :
      (k b : ℕ) (rest : Bytes) → At d off rest → get_elem? rest k ≡ some b → u8 d (off + k) ≡ done b
  read-u8 k b rest h g = u8-done d (off + k) (At-nth off k b rest h g)

  pub read-u16be :
      (k a b : ℕ) (rest : Bytes)
      → At d off rest
      → get_elem? rest k ≡ some a
      → get_elem? rest (k + 1) ≡ some b
      → u16be d (off + k) ≡ done ((a * 256 + b) % 65536)
  unfolding u16be
  read-u16be k a b rest h ga gb =
      let e : off + k + 1 ≡ off + (k + 1) = omega arith in
      rw (read-u8 k a rest h ga, e, read-u8 (k + 1) b rest h gb) refl

  pub read-first :
      (a b : ℕ) (rest : Bytes)
      → At d off (a ∷ b ∷ rest)
      → u16be d off ≡ done ((a * 256 + b) % 65536)
  read-first a b rest h =
      let e : off ≡ off + 0 = omega arith in rw e (read-u16be 0 a b (a ∷ b ∷ rest) h refl refl)

  pub read-owner :
      (fuel p : ℕ) (rest : Bytes)
      → At d off (0xC0 ∷ p ∷ rest)
      → owner_loop (suc fuel) d off ≡ done (some (off + 2))
  unfolding owner_loop
  read-owner fuel p rest h =
      let inside : ltb off (length d) ≡ true = let e = h.ends in ground arith in
      let both : ltb (length d) (off + 2) ≡ false = let e = h.ends in ground arith in
      let z : off ≡ off + 0 = omega arith in
      let r : u8 d off ≡ done 0xC0 = rw z (read-u8 0 0xC0 (0xC0 ∷ p ∷ rest) h refl) in
      rw (inside, owner_loop, r, both) refl

pub read-record :
    (d : Bytes) (off : ℕ) (r : ARecord) (rest : Bytes) (z : ℕ)
    → At d off (record_bytes r rest)
    → z ≡ off + 2
    → read_fixed d z
      ≡ done (some (record { rtype = 1; rttl = ttl_of r; rdlength = 4; rdata = z + 10 }))
unfolding read_fixed
read-record d off r rest z h e =
    let n = h.ends in
    let w = record_bytes r rest in
    let room : ltb (length d) (z + 10) ≡ false = ground arith in
    let fits : ltb (length d) (z + 10 + 4) ≡ false = ground arith in
    let g : At d z (drop 2 w) =
      At-move (off + 1 + 1) z (drop 2 w) (omega arith)
        (At-suc (off + 1) r.pointer (drop 2 w) (At-suc off 0xC0 (drop 1 w) h)) in
    let t = drop 2 w in
    rw
      (
        room,
        read-first d z 0 1 (drop 2 t) g,
        read-u8 d z 4 r.t0 t g refl,
        read-u8 d z 5 r.t1 t g refl,
        read-u8 d z 6 r.t2 t g refl,
        read-u8 d z 7 r.t3 t g refl,
        read-u16be d z 8 0 4 t g refl refl,
        fits,
      )
      refl

-- Where the parts of a packet stand.
module _ (v : Envelope) (sized : IsSized v) (m : Bytes) where
  abbrev pub d : Bytes
  d = packet_bytes v m

  At-protocol : At d 9 (17 ∷ (v.ip_back ++ (v.udp ++ m)))
  At-protocol = At-skip v.ip_front 1 8 (17 ∷ (v.ip_back ++ (v.udp ++ m))) sized.front (
      At-move (0 + 1) 1 (v.ip_front ++ (17 ∷ (v.ip_back ++ (v.udp ++ m)))) (omega arith)
        (At-suc 0 0x45 (v.ip_front ++ (17 ∷ (v.ip_back ++ (v.udp ++ m)))) At-start))

  pub At-message : At d 28 m
  At-message = At-skip v.udp 20 8 m sized.header (
      At-skip v.ip_back 10 10 (v.udp ++ m) sized.back
        (At-suc 9 17 (v.ip_back ++ (v.udp ++ m)) At-protocol))

  pub message_found : 12 ≤ length m → find_message d ≡ done (some 28)
  unfolding find_message
  message_found h =
      let n = At-message.ends in
      let a : ltb (length d) 20 ≡ false = ground arith in
      let b : ltb (length d) (0x45 % 16 * 4 + 8) ≡ false = ground arith in
      let c : ltb (length d) (0x45 % 16 * 4 + 8 + 12) ≡ false = ground arith in
      rw (a, proto, b, c) refl
    where
      proto : u8 d 9 ≡ done 17
      proto = read-u8 d 9 0 17 (17 ∷ (v.ip_back ++ (v.udp ++ m))) At-protocol refl
