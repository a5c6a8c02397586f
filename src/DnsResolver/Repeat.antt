-- ===== src/DnsResolver/Repeat.antt =====
-- A query that was forwarded is answered from the cache when it is repeated.
use proxiflare.Prelude.{
  ℕ, zero, suc, ◌+◌, ◌-◌, ◌≤◌, ◌<◌, ◌≡◌, ◌/◌, ◌%◌, refl, ◌∙◌, inl, inr, Bool, true, false, not,
  ◌||◌, none, some, List, [], ◌∷◌, ◌==◌, ltb, leb, Bytes, length, set, take, drop, bytes_eq,
  bytes_eq_refl, take-all, length-drop, Bool-cases, le→leb, leb→le, le→ltb, ==_refl, ==_ne, arith,
}
use proxiflare.DnsResolver.{
  Answer, Answers, answers_size, answers_ttl, resp_max, skips, answer_with, lookup_from,
  dns_cache_lookup, new_answer, dns_cache_put,
}

-- Every stored answer fits the reply's buffer.
abbrev pub AllFit : List Answer → Type 0
AllFit [] = Unit
AllFit (e ∷ es) = (length e.resp ≤ resp_max) × AllFit es

module _ (name : Bytes) (qtype : ℕ) where
  abbrev AllSkipped : ℕ → List Answer → Type 0
  AllSkipped now [] = Unit
  AllSkipped now (e ∷ es) = (skips now name qtype e ≡ true) × AllSkipped now es

  -- A miss passes over every entry.
  missed :
      (now id : ℕ) (es : List Answer)
      → AllFit es
      → lookup_from now name qtype id (resp_max + 2) es ≡ none
      → AllSkipped now es
  unfolding lookup_from
  missed now id [] f h = tt
  missed now id (e ∷ es) (fit, f) h = elim (Bool-cases (skips now name qtype e)) [
    | inl s ↦ (s, missed now id es f (rw (lookup_from, s) at h))
    | inr s ↦
        let room : ltb (resp_max + 2) (length e.resp + 2) ≡ false =
          le→ltb (resp_max + 2) (length e.resp + 2) (omega arith) in
        let w : some _ ≡ none = (rw (lookup_from, s, room) at h) in cc
  ]

  -- What has expired stays so.
  skips_later :
      (now now' : ℕ) (e : Answer)
      → now ≤ now'
      → skips now name qtype e ≡ true
      → skips now' name qtype e ≡ true
  skips_later now now' e le s = elim (Bool-cases (leb e.expires now)) [
    | inl t ↦
        let later : leb e.expires now' ≡ true =
          le→leb e.expires now' (let x = leb→le e.expires now t in omega arith) in
        rw later refl
    | inr t ↦
        other (leb e.expires now') (not (e.qtype == qtype)) (length e.resp == 0)
          (not (bytes_eq e.name name)) (rw t at s)
  ]
    where
      other : (a b c d : Bool) → (false || b || c || d) ≡ true → (a || b || c || d) ≡ true
      other true b c d h = refl
      other false b c d h = h

  all_later :
      (now now' : ℕ) (es : List Answer) → now ≤ now' → AllSkipped now es → AllSkipped now' es
  all_later now now' [] le s = tt
  all_later now now' (e ∷ es) le (h, s) = (skips_later now now' e le h, all_later now now' es le s)

  -- A fresh entry among others that are passed over.
  found :
      (now id i : ℕ) (es : List Answer) (new : Answer)
      → AllSkipped now es
      → i < length es
      → skips now name qtype new ≡ false
      → lookup_from now name qtype id (resp_max + 2) (set es i new)
        ≡ answer_with id (resp_max + 2) new
  unfolding lookup_from
  found now id i [] new s lt f = absurd (omega arith)
  found now id zero (e ∷ es) new s lt f = rw (lookup_from, f) refl
  found now id (suc i) (e ∷ es) new (h, s) lt f =
      rw (lookup_from, h) (found now id i es new s (omega arith) f)

-- Once a query has missed the cache and its answer of more than 2 and at most 1026 bytes has been
-- stored, the same name and type are answered from the cache for 60 seconds, with the bytes of that
-- answer behind the id of the new query. The cache has its 512 entries, its answers fit and its head
-- is in range, the name has at most 255 bytes, and the clock does not go back.
pub lookup-dns_cache_put :
    (now now' : ℕ) (cache : Answers) (name : Bytes) (qtype id id' : ℕ) (resp : Bytes)
    → length cache.entries ≡ answers_size
    → cache.head < answers_size
    → AllFit cache.entries
    → length name ≤ 255
    → 2 < length resp
    → length resp ≤ resp_max + 2
    → now ≤ now'
    → now' < now + answers_ttl
    → dns_cache_lookup now cache name qtype id (resp_max + 2) ≡ none
    → dns_cache_lookup now' (dns_cache_put now cache name qtype resp) name qtype id' (resp_max + 2)
      ≡ some (id' / 256 % 256 ∷ id' % 256 ∷ drop 2 resp)
unfolding dns_cache_lookup dns_cache_put
lookup-dns_cache_put now now' cache name qtype id id' resp size fits f short big small le lt h =
    let new = new_answer now name qtype resp in
    let a : ltb (length resp) 2 ≡ false = le→ltb (length resp) 2 (omega arith) in
    let b : ltb resp_max (length resp - 2) ≡ false =
      le→ltb resp_max (length resp - 2) (omega arith) in
    let whole : take 255 name ≡ name = take-all 255 name short in
    let live : leb (now + answers_ttl) now' ≡ false = ground arith in
    let full : (length (drop 2 resp) == 0) ≡ false =
      ==_ne (length (drop 2 resp)) 0 (omega (arith, length-drop 2 resp)) in
    let fresh : skips now' name qtype new ≡ false =
      rw (live, ==_refl qtype, full, whole, bytes_eq_refl name) refl in
    let room : ltb (resp_max + 2) (length (drop 2 resp) + 2) ≡ false =
      le→ltb (resp_max + 2) (length (drop 2 resp) + 2) (omega (arith, length-drop 2 resp)) in
    rw (dns_cache_put, a, b, dns_cache_lookup)
      (found name qtype now' id' cache.head cache.entries new
          (all_later name qtype now now' cache.entries le
            (missed name qtype now id cache.entries f h))
          (omega arith) fresh
        ∙ rw room refl)
