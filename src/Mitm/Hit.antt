-- ===== src/Mitm/Hit.antt =====
-- A certificate that was handed out is handed out again.
use proxiflare.Prelude.{
  ℕ, ◌-◌, ◌%◌, ◌^◌, ◌≡◌, inl, inr, refl, sym, ap, ◌∙◌, Bool, true, Option, none, some, List, Bytes,
  length, set, lower, Option-cases, arith,
}
use mathlib.Core.Path.{subst}
use proxiflare.Mitm.{
  CertEntry, CertCache, cert_cache_size, cache_probe, next_tick, lookup_loop, insert_loop, hit,
  insert, generate, get_named, get_cert, domain_is_safe, fnv1a64_lower,
}
use proxiflare.Mitm.Probe.{Skips-less, lookup-none, lookup-some, insert-some, lookup-set}

module _ {C : Type 0} (base : ℕ) (name : Bytes) where
  -- A lookup in the cache finds the certificate.
  abbrev Finds : CertCache C → C → Type 0
  Finds m c =
      (idx : ℕ) × (e : CertEntry C) × (lookup_loop cache_probe 0 base name m.slots ≡ some (idx, e))
      × (e.cert ≡ c)

  abbrev put : CertCache C → ℕ → CertEntry C → List (Option (CertEntry C))
  put m idx e = set m.slots idx (some e)

  hit-Finds :
      (m : CertCache C) (idx : ℕ) (e : CertEntry C)
      → length m.slots ≡ cert_cache_size
      → lookup_loop cache_probe 0 base name m.slots ≡ some (idx, e)
      → Finds (hit m idx e).1 e.cert
  hit-Finds m idx e size h =
      let (i, lt, sk, at, dom) = lookup-some base name cache_probe 0 m.slots idx e h in
      let new : CertEntry C = record e { last_used = next_tick m.tick } in
      (
        idx,
        new,
        lookup-set base name cache_probe i 0 m.slots idx new size lt (omega arith) at sk dom,
        refl,
      )

  insert-Finds :
      (m : CertCache C) (cert : C) (idx : ℕ) (evicted : Bool)
      → length m.slots ≡ cert_cache_size
      → lookup_loop cache_probe 0 base name m.slots ≡ none
      → insert_loop cache_probe 0 base m.slots none (2 ^ 64 - 1) ≡ some (idx, evicted)
      → Finds (insert m name cert (some (idx, evicted))).1 cert
  insert-Finds m cert idx evicted size h g =
      let (k, le, sk, end) = lookup-none base name cache_probe 0 m.slots h in
      let place =
        insert-some base name cache_probe k 0 m.slots none (2 ^ 64 - 1) idx evicted le sk end g in
      let new : CertEntry C = record { domain = name; cert = cert; last_used = next_tick m.tick } in
      elim place [
        | inl w ↦ cc
        | inr (i, below, lt, at) ↦ (
          idx,
          new,
          lookup-set base name cache_probe i 0 m.slots idx new size lt (omega arith) at
              (Skips-less base name i k 0 m.slots below sk) refl,
          refl,
        )
      ]

  -- The pair that a call gives, with its cache in place of the old one.
  same-Finds :
      (r : Option C × CertCache C) (c c' : C) (m' : CertCache C)
      → Finds r.1 c
      → r.0 ≡ some c
      → r ≡ (some c', m')
      → Finds m' c'
  same-Finds r c c' m' f e h =
      let s : some c ≡ some c' = sym e ∙ ap (λ (p : Option C × CertCache C). p.0) h in
      let same : c ≡ c' = cc in
      subst (λ x. Finds m' x) same
        (subst (λ x. Finds x c) (ap (λ (p : Option C × CertCache C). p.1) h) f)

  get_named-Finds :
      (m m' : CertCache C) (made : Option C) (c : C)
      → length m.slots ≡ cert_cache_size
      → get_named m name base made ≡ (some c, m')
      → Finds m' c
  unfolding get_named
  get_named-Finds m m' made c size h =
      elim (Option-cases (lookup_loop cache_probe 0 base name m.slots)) [
        | inr ((idx, e), z) ↦
            same-Finds (hit m idx e) e.cert c m' (hit-Finds m idx e size z) refl
              (rw (get_named, z) at h)
        | inl z ↦ made_case made (rw (get_named, z) at h) z
      ]
    where
      placed :
          (cert : C) (o : Option (ℕ × Bool))
          → insert_loop cache_probe 0 base m.slots none (2 ^ 64 - 1) ≡ o
          → insert m name cert o ≡ (some c, m')
          → lookup_loop cache_probe 0 base name m.slots ≡ none
          → Finds m' c
      placed cert none g w z =
          let bad : none ≡ some c = ap (λ (p : Option C × CertCache C). p.0) w in cc
      placed cert (some (idx, evicted)) g w z =
          same-Finds (insert m name cert (some (idx, evicted))) cert c m'
            (insert-Finds m cert idx evicted size z g) refl w

      made_case :
          (o : Option C)
          → generate m name base o ≡ (some c, m')
          → lookup_loop cache_probe 0 base name m.slots ≡ none
          → Finds m' c
      made_case none w z =
          let bad : none ≡ some c = ap (λ (p : Option C × CertCache C). p.0) w in cc
      made_case (some cert) w z =
          placed cert (insert_loop cache_probe 0 base m.slots none (2 ^ 64 - 1)) refl w z

  found_again :
      (m : CertCache C) (made : Option C) (c : C)
      → Finds m c
      → (get_named m name base made).0 ≡ some c
  unfolding get_named
  found_again m made c (idx, e, z, same) = rw (get_named, z) (ap (λ x. some x) same)

-- When the cache of 256 slots has handed out a certificate for a name, the next call for that name,
-- in whatever case its letters are, hands out the same one, and what the generator would make then
-- does not matter: this holds when the name was in the cache, when it took a free slot, and when
-- another entry was evicted for it. Both spellings are safe host names.
pub get_cert_again :
    {C : Type 0} (m m' : CertCache C) (domain domain' : Bytes) (made made' : Option C) (c : C)
    → length m.slots ≡ cert_cache_size
    → lower domain' ≡ lower domain
    → domain_is_safe domain ≡ true
    → domain_is_safe domain' ≡ true
    → get_cert m domain made ≡ (some c, m')
    → (get_cert m' domain' made').0 ≡ some c
unfolding get_cert
get_cert_again m m' domain domain' made made' c size e s s' h =
    let name = lower domain in
    let base = fnv1a64_lower (lower domain) % cert_cache_size in
    let f : get_named m name base made ≡ (some c, m') = (rw (get_cert, s) at h) in
    rw (get_cert, s', e)
      (found_again base name m' made' c (get_named-Finds base name m m' made c size f))
