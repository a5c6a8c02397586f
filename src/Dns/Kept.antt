-- ===== src/Dns/Kept.antt =====
-- What `dns_callback` of dns.c keeps: it reads inside the packet, and a property of caches that both
-- its ways of writing keep holds afterwards.
use proxiflare.Prelude.{
  ℕ, zero, suc, ◌+◌, ◌*◌, ◌%◌, ◌≤◌, ◌<◌, ◌≢◌, Bool, not, ◌&&◌, ◌||◌, Option, none, some, List, [],
  ◌∷◌, ◌==◌, leb, ltb, if◌then◌else◌, Bytes, length, drop, arith, Bool-cases, inl, inr, ltb→le,
  ltb→lt, c_text,
}
use proxiflare.Types.{Rule}
use proxiflare.Libc.{Libc}
use proxiflare.Rules.Match.{domain_max}
use proxiflare.Sni.Reader.{
  done, fault, ◌>>=◌, Safe, ok, Safe-bind, Safe-ne-fault, u8-Safe, u16be-Safe, copy-Safe,
}
use proxiflare.Dns.{DnsEntry, Qname}
use proxiflare.Dns.Names.{parse_qname-Safe}
use proxiflare.Dns.Callback.{
  Ntop, Answer, owner_loop, read_fixed, read_answer, find_message, behind_name, question,
  add_matched, resolve, resolve_text, use_answer, answers, on_name, on_message, dns_callback,
}

-- A record whose data lies in the packet.
IsInside : Bytes → Option Answer → Type 0
IsInside d none = Unit
IsInside d (some a) = a.rdata + a.rdlength ≤ length d

module _ (d : Bytes) where
  -- The rounds left exceed the bytes left.
  owner_loop-Safe :
      (fuel off : ℕ)
      → off ≤ length d
      → length d < fuel + off
      → Safe (λ _. Unit {0}) (owner_loop fuel d off)
  unfolding owner_loop
  owner_loop-Safe zero off le lt = absurd (omega arith)
  owner_loop-Safe (suc fuel) off le lt = elim (Bool-cases (ltb off (length d))) [
    | inr e ↦ rw (e, owner_loop) (ok tt)
    | inl e ↦
        rw (e, owner_loop)
          (Safe-bind (u8-Safe d off (ltb→lt off (length d) e)) λ b _.
            elim (Bool-cases (leb 0xC0 b)) [
              | inl y ↦ rw y (ok tt)
              | inr n ↦ elim (Bool-cases (b == 0)) [
                | inl y ↦ rw (n, y) (ok tt)
                | inr n' ↦ elim (Bool-cases (ltb (length d) (off + 1 + b))) [
                  | inl y ↦ rw (n, n', y) (ok tt)
                  | inr n'' ↦
                      let fits = ltb→le (length d) (off + 1 + b) n'' in
                      rw (n, n', n'')
                        (owner_loop-Safe fuel (off + b + 1) (omega arith) (omega arith))
                ]
              ]
            ])
  ]

  read_fixed-Safe : (off : ℕ) → Safe (IsInside d) (read_fixed d off)
  unfolding read_fixed IsInside
  read_fixed-Safe off = elim (Bool-cases (ltb (length d) (off + 10))) [
    | inl e ↦ rw e (ok tt)
    | inr e ↦
        let fits = ltb→le (length d) (off + 10) e in
        rw e (
          Safe-bind (u16be-Safe d off (omega arith)) λ rtype _.
            Safe-bind (u8-Safe d (off + 4) (omega arith)) λ b4 _.
              Safe-bind (u8-Safe d (off + 5) (omega arith)) λ b5 _.
                Safe-bind (u8-Safe d (off + 6) (omega arith)) λ b6 _.
                  Safe-bind (u8-Safe d (off + 7) (omega arith)) λ b7 _.
                    Safe-bind (u16be-Safe d (off + 8) (omega arith)) λ n _.
                      elim (Bool-cases (ltb (length d) (off + 10 + n))) [
                        | inl y ↦ rw y (ok tt)
                        | inr y ↦ rw y (ok (ltb→le (length d) (off + 10 + n) y))
                      ])
  ]

  read_answer-Safe : (owner : Option ℕ) → Safe (IsInside d) (read_answer d owner)
  unfolding read_answer IsInside
  read_answer-Safe none = ok tt
  read_answer-Safe (some off) = read_fixed-Safe off

-- The 12 bytes of a header lie in the packet.
HasHeader : Bytes → Option ℕ → Type 0
HasHeader d none = Unit
HasHeader d (some base) = base + 12 ≤ length d

find_message-Safe : (d : Bytes) → Safe (HasHeader d) (find_message d)
unfolding find_message HasHeader
find_message-Safe d = elim (Bool-cases (ltb (length d) 20)) [
  | inl e ↦ rw e (ok tt)
  | inr e ↦
      let big = ltb→le (length d) 20 e in
      rw e (
        Safe-bind (u8-Safe d 0 (omega arith)) λ v _.
          elim (Bool-cases (ltb (v % 16 * 4) 20 || ltb (length d) (v % 16 * 4))) [
            | inl y ↦ rw y (ok tt)
            | inr y ↦
                rw y (
                  Safe-bind (u8-Safe d 9 (omega arith)) λ protocol _. message protocol (v % 16 * 4))
          ])
]
  where
    message :
        (protocol hlen : ℕ)
        → Safe (HasHeader d) (
            done (
              if not (protocol == 17) || ltb (length d) (hlen + 8) || ltb (length d) (hlen + 8 + 12)
              then none
              else some (hlen + 8)))
    message protocol hlen =
        elim (Bool-cases
          (not (protocol == 17) || ltb (length d) (hlen + 8) || ltb (length d) (hlen + 8 + 12))) [
            | inl y ↦ rw y (ok tt)
            | inr y ↦ rw y (ok (ground arith))
          ]

length-c_text : (s : Bytes) → length (c_text s) ≤ length s
unfolding c_text
length-c_text [] = omega arith
length-c_text (x ∷ s) = ground (arith, length-c_text s)

question-Safe :
    (d : Bytes) (off qdcount : ℕ) → Safe (λ q. length q.0 < domain_max) (question d off qdcount)
unfolding question
question-Safe d off qdcount = elim (Bool-cases (qdcount == 0)) [
  | inl y ↦ rw y (ok (omega arith))
  | inr n ↦ rw n (
      Safe-bind (parse_qname-Safe (drop off d) domain_max (omega arith))
        λ name lt. ok (named name lt))
]
  where
    named : (q : Qname) → length q.0 < domain_max → length (behind_name d off q).0 < domain_max
    named (out, none) lt = omega (arith, length-c_text out)
    named (out, some after) lt = omega (arith, length-c_text out)

module _ {ℓ} (libc : Libc) (ntop : Ntop) (rules : List Rule) (now : ℕ) (P : List DnsEntry → Type ℓ)
    (adds : (c : List DnsEntry) (domain ip : Bytes)
      → length domain < domain_max
      → P c
      → P (add_matched libc ntop rules now c domain ip))
    (resolves : (c : List DnsEntry) (domain ip : Bytes) (ttl : ℕ)
      → length domain < domain_max
      → P c
      → P (resolve libc ntop rules now c domain ip ttl)) where
  text_keeps :
      (c : List DnsEntry) (domain : Bytes) (ttl : ℕ) (ip : Option Bytes)
      → length domain < domain_max
      → P c
      → P (resolve_text libc ntop rules now c domain ttl ip)
  unfolding resolve_text
  text_keeps c domain ttl none lt p = p
  text_keeps c domain ttl (some ip) lt p = resolves c domain ip ttl lt p

  use_answer-Safe :
      (d : Bytes) (a : Answer) (domain : Bytes) (c : List DnsEntry)
      → a.rdata + a.rdlength ≤ length d
      → length domain < domain_max
      → P c
      → Safe P (use_answer libc ntop rules now d a domain c)
  unfolding use_answer
  use_answer-Safe d a domain c h lt p = elim (Bool-cases (a.rtype == 1 && a.rdlength == 4)) [
    | inl y ↦ rw y (
        Safe-bind (copy-Safe d a.rdata 4 (ground arith))
          λ addr _. ok (text_keeps c domain _ (ntop.v4 addr) lt p))
    | inr n ↦ elim (Bool-cases (a.rtype == 28 && a.rdlength == 16)) [
      | inl y ↦
          rw (n, y)
            (Safe-bind (copy-Safe d a.rdata 16 (ground arith))
              λ addr _. ok (text_keeps c domain _ (ntop.v6 addr) lt p))
      | inr n' ↦ rw (n, n') (ok p)
    ]
  ]

  answers-Safe :
      (left : ℕ) (d : Bytes) (off : ℕ) (domain : Bytes) (c : List DnsEntry)
      → length domain < domain_max
      → P c
      → Safe P (answers libc ntop rules now left d off domain c)
  unfolding answers IsInside
  answers-Safe zero d off domain c lt p = ok p
  answers-Safe (suc left) d off domain c lt p = elim (Bool-cases (ltb off (length d))) [
    | inr e ↦ rw (e, answers) (ok p)
    | inl e ↦
        rw (e, answers)
          (Safe-bind (owner_loop-Safe d (suc (length d)) off (ground arith) (omega arith))
            λ owner _.
              Safe-bind (read_answer-Safe d owner)
                (found_keeps λ a c' p'. answers-Safe left d (a.rdata + a.rdlength) domain c' lt p'))
  ]
    where
      found_keeps :
          ((a : Answer) (c' : List DnsEntry)
            → P c'
            → Safe P (answers libc ntop rules now left d (a.rdata + a.rdlength) domain c'))
          → (found : Option Answer) → IsInside d found
          → Safe P (elim found [
            | none ↦ done c
            | some a ↦ use_answer libc ntop rules now d a domain c >>= λ c'.
                answers libc ntop rules now left d (a.rdata + a.rdlength) domain c'
          ])
      found_keeps later none h = ok p
      found_keeps later (some a) h = Safe-bind (use_answer-Safe d a domain c h lt p) (later a)

  on_name-Safe :
      (d : Bytes) (is_response : Bool) (ancount : ℕ) (q : Bytes × ℕ) (c : List DnsEntry)
      → length q.0 < domain_max
      → P c
      → Safe P (on_name libc ntop rules now d is_response ancount q c)
  unfolding on_name
  on_name-Safe d is_response ancount (domain, off) c lt p = elim (Bool-cases (length domain == 0)) [
    | inl y ↦ rw y (ok p)
    | inr n ↦ elim (Bool-cases is_response) [
      | inl y ↦ rw (n, y) (answers-Safe ancount d off domain c lt p)
      | inr n' ↦ rw (n, n') (ok (adds c domain [] lt p))
    ]
  ]

  on_message-Safe :
      (d : Bytes) (base : ℕ) (c : List DnsEntry)
      → base + 12 ≤ length d
      → P c
      → Safe P (on_message libc ntop rules now d base c)
  unfolding on_message
  on_message-Safe d base c h p = Safe-bind (u8-Safe d (base + 2) (omega arith)) λ flags _.
      Safe-bind (u16be-Safe d base (omega arith)) λ tx _.
        Safe-bind (u16be-Safe d (base + 4) (omega arith)) λ qd _.
          Safe-bind (u16be-Safe d (base + 6) (omega arith)) λ an _.
            Safe-bind (question-Safe d (base + 12) qd)
              λ q lt. on_name-Safe d (leb 0x80 flags) an q c lt p

  -- Whatever the packet, the callback reads inside it, and `P` holds of the cache that it leaves.
  pub dns_callback-Safe :
      (d : Bytes) (c : List DnsEntry) → P c → Safe P (dns_callback libc ntop rules now d c)
  unfolding dns_callback HasHeader
  dns_callback-Safe d c p = Safe-bind (find_message-Safe d) found_keeps
    where
      found_keeps :
          (found : Option ℕ)
          → HasHeader d found
          → Safe P
              (elim found [ none ↦ done c | some base ↦ on_message libc ntop rules now d base c ])
      found_keeps none h = ok p
      found_keeps (some base) h = on_message-Safe d base c h p

-- No packet, whatever it holds, makes `dns_callback` read outside it, and the loops over names and
-- answers end.
pub dns_callback-ne-fault :
    (libc : Libc) (ntop : Ntop) (rules : List Rule) (now : ℕ) (d : Bytes) (cache : List DnsEntry)
    → dns_callback libc ntop rules now d cache ≢ fault
dns_callback-ne-fault libc ntop rules now d cache = Safe-ne-fault (
    dns_callback-Safe libc ntop rules now (λ _. Unit {0}) (λ _ _ _ _ _. tt) (λ _ _ _ _ _ _. tt) d
      cache tt)
