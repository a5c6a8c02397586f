-- ===== src/Mitm.antt =====
-- daemon/src/mitm.c: the cache of the certificates that are made for intercepted hosts, an
-- open-addressing table. Each call holds the lock throughout.
pub mod Probe
pub mod Hit
use proxiflare.Prelude.{
  ℕ, zero, suc, ◌+◌, ◌-◌, ◌*◌, ◌/◌, ◌%◌, ◌^◌, Bool, true, false, not, ◌&&◌, ◌||◌, Option, none,
  some, List, [], ◌∷◌, ◌==◌, ltb, leb, if◌then◌else◌, Bytes, length, get_or, set, replicate, take,
  bytes_eq, lower, to_lower,
}
use proxiflare.Rules.Match.{domain_max}

-- PF_MITM_CERT_CACHE_SIZE and CACHE_PROBE; `& CACHE_MASK` is `% cert_cache_size`.
abbrev pub cert_cache_size : ℕ
cert_cache_size = 256

abbrev pub cache_probe : ℕ
cache_probe = 16

-- Exclusive or of numbers of so many bits.
unfoldable pub xor : ℕ → ℕ → ℕ → ℕ
xor zero a b = 0
xor (suc bits) a b = (a + b) % 2 + 2 * xor bits (a / 2) (b / 2)

unfoldable pub fnv1a_from : ℕ → Bytes → ℕ
unfolding xor to_lower
fnv1a_from h [] = h
fnv1a_from h (c ∷ s) = fnv1a_from (xor 64 h (to_lower c) * 1099511628211 % 2 ^ 64) s

unfoldable pub fnv1a64_lower : Bytes → ℕ
unfolding fnv1a_from
fnv1a64_lower s = fnv1a_from 14695981039346656037 s

-- isalnum in the C locale, a dot, a dash or an underscore.
abbrev pub is_host_byte : ℕ → Bool
is_host_byte c =
    leb 48 c && leb c 57
    || leb 65 c && leb c 90
    || leb 97 c && leb c 122
    || c == 46
    || c == 45
    || c == 95

unfoldable pub all_host_bytes : Bytes → Bool
all_host_bytes [] = true
all_host_bytes (c ∷ d) = is_host_byte c && all_host_bytes d

unfoldable pub domain_is_safe : Bytes → Bool
unfolding all_host_bytes
domain_is_safe d = not (length d == 0) && leb (length d) domain_max && all_host_bytes d

-- pf_cert_cache_entry_t; `used` is false where a slot is `none`. A certificate and its key are `C`.
pub record CertEntry (C : Type 0) : Type 0 where
  pub domain : Bytes
  pub cert : C
  pub last_used : ℕ

-- `cache` and `cache_count` of pf_mitm_t, and g_tick.
pub record CertCache (C : Type 0) : Type 0 where
  pub slots : List (Option (CertEntry C))
  pub cache_count : ℕ
  pub tick : ℕ

abbrev pub no_certs : {C : Type 0} → CertCache C
no_certs = record { slots = replicate cert_cache_size none; cache_count = 0; tick = 0 }

abbrev pub slot_at : ℕ → ℕ → ℕ
slot_at base step = (base + step) % cert_cache_size

abbrev pub next_tick : ℕ → ℕ
next_tick t = (t + 1) % 2 ^ 64

module _ {C : Type 0} where
  -- `m->cache[idx]`
  abbrev pub entry_at : List (Option (CertEntry C)) → ℕ → ℕ → Option (CertEntry C)
  entry_at slots base step = get_or slots (slot_at base step) none

  -- The lookup phase: the rounds left and the step; the index and the entry of a hit.
  unfoldable pub lookup_loop :
      ℕ → ℕ → ℕ → Bytes → List (Option (CertEntry C)) → Option (ℕ × CertEntry C)
  unfolding bytes_eq
  lookup_loop zero step base name slots = none
  lookup_loop (suc rounds) step base name slots =
      let rest = lookup_loop rounds (step + 1) base name slots in
      elim (entry_at slots base step) [
        | none ↦ none
        | some e ↦ if bytes_eq e.domain name then some (slot_at base step, e) else rest
      ]

  -- The search for a slot: the rounds left and the step, with `lru_idx` and `lru_tick`. The index,
  -- and whether an entry stands there that is evicted.
  unfoldable pub insert_loop :
      ℕ → ℕ → ℕ → List (Option (CertEntry C)) → Option ℕ → ℕ → Option (ℕ × Bool)
  insert_loop zero step base slots none lru_tick = none
  insert_loop zero step base slots (some i) lru_tick = some (i, true)
  insert_loop (suc rounds) step base slots lru lru_tick = elim (entry_at slots base step) [
    | none ↦ some (slot_at base step, false)
    | some e ↦
        (let older =
            insert_loop rounds (step + 1) base slots (some (slot_at base step)) e.last_used in
          let rest = insert_loop rounds (step + 1) base slots lru lru_tick in
          if ltb e.last_used lru_tick then older else rest)
  ]

  abbrev pub hit : CertCache C → ℕ → CertEntry C → Option C × CertCache C
  hit m idx e = (
    some e.cert,
    record m {
      slots = set m.slots idx (some (record e { last_used = next_tick m.tick }));
      tick = next_tick m.tick;
    },
  )

  abbrev pub insert : CertCache C → Bytes → C → Option (ℕ × Bool) → Option C × CertCache C
  insert m name cert none = (none, m)
  insert m name cert (some (idx, evicted)) = (
    some cert,
    record {
      slots =
          set m.slots idx
            (some (record { domain = name; cert = cert; last_used = next_tick m.tick }));
      cache_count = if evicted then m.cache_count else m.cache_count + 1;
      tick = next_tick m.tick;
    },
  )

  -- `made` is what generate_domain_cert gives for the name, where it is asked.
  abbrev pub generate : CertCache C → Bytes → ℕ → Option C → Option C × CertCache C
  generate m name base none = (none, m)
  generate m name base (some cert) =
      insert m name cert (insert_loop cache_probe 0 base m.slots none (2 ^ 64 - 1))

  -- The two phases for a lowercased name.
  unfoldable pub get_named : CertCache C → Bytes → ℕ → Option C → Option C × CertCache C
  unfolding lookup_loop insert_loop
  get_named m name base made = elim (lookup_loop cache_probe 0 base name m.slots) [
    | some (idx, e) ↦ hit m idx e
    | none ↦ generate m name base made
  ]

  -- `pf_mitm_get_cert` with a CA key. Where no entry of the probe window has a tick below 2^64 - 1
  -- the source has no index to evict; the result is then `none`.
  unfoldable pub get_cert : CertCache C → Bytes → Option C → Option C × CertCache C
  unfolding domain_is_safe fnv1a64_lower lower get_named
  get_cert m domain made =
      if domain_is_safe domain
      then get_named m (lower domain) (fnv1a64_lower (lower domain) % cert_cache_size) made
      else (none, m)
