-- ===== src/Dns/Lookup.antt =====
-- What the cache of dns.c finds after an addition.
use proxiflare.Prelude.{
  ℕ, zero, suc, ◌+◌, ◌≤◌, ◌<◌, ◌≡◌, ◌≢◌, ◌⊎◌, inl, inr, refl, Bool, true, false, not, ◌&&◌, Option,
  none, some, List, [], ◌∷◌, ◌==◌, Bytes, length, arith, Bool-cases, set, get_elem?, take-all,
  bytes_eq, bytes_eq_iff, eq_ci,
}
use proxiflare.Prelude.Int.{ℤ}
use proxiflare.Types.{Action}
use proxiflare.Dns.{
  DnsEntry, is_live, find_slot_loop, find_slot, lookup, new_entry, cache_add, reuse_or,
}

-- A live entry with the address.
pub record IsFor (now : ℕ) (ip : Bytes) (e : DnsEntry) : Type 0 where
  pub live : is_live now e ≡ true
  pub address : e.resolved_ip ≡ ip

reuse_or_lem : (reuse : Option ℕ) (i k : ℕ) → reuse_or reuse i ≡ some k → (reuse ≡ some k) ⊎ (i ≡ k)
reuse_or_lem none i k h = inr cc
reuse_or_lem (some j) i k h = inl h

-- The slot that is found lies in the cache, unless it was given.
slot_inside :
    (now : ℕ) (domain : Bytes) (es : List DnsEntry) (i k : ℕ) (reuse : Option ℕ)
    → find_slot_loop now domain es i reuse ≡ some k
    → (reuse ≡ some k) ⊎ ((i ≤ k) × (k < i + length es))
unfolding find_slot_loop
slot_inside now domain [] i k reuse h = inl h
slot_inside now domain (e ∷ es) i k reuse h = elim (Bool-cases (not (is_live now e))) [
  | inl free ↦
      let later : find_slot_loop now domain es (i + 1) (reuse_or reuse i) ≡ some k = rw free at h in
      elim (slot_inside now domain es (i + 1) k (reuse_or reuse i) later) [
        | inl given ↦ elim (reuse_or_lem reuse i k given) [
          | inl r ↦ inl r
          | inr here ↦ inr (omega arith, omega arith)
        ]
        | inr (le, lt) ↦ inr (omega arith, omega arith)
      ]
  | inr busy ↦ elim (Bool-cases (eq_ci e.domain domain)) [
    | inl y ↦
        let here : some i ≡ some k = rw (busy, y) at h in
        let same : i ≡ k = cc in inr (omega arith, omega arith)
    | inr n ↦
        let later : find_slot_loop now domain es (i + 1) reuse ≡ some k = rw (busy, n) at h in
        elim (slot_inside now domain es (i + 1) k reuse later) [
          | inl given ↦ inl given
          | inr (le, lt) ↦ inr (omega arith, omega arith)
        ]
  ]
]

pub get-set :
    (es : List DnsEntry) (i : ℕ) (e : DnsEntry) → i < length es → get_elem? (set es i e) i ≡ some e
get-set [] i e lt = absurd (omega arith)
get-set (x ∷ es) zero e lt = refl
get-set (x ∷ es) (suc i) e lt = get-set es i e (omega arith)

hit :
    (now : ℕ) (e : DnsEntry) (ip : Bytes)
    → ip ≢ []
    → IsFor now ip e
    → (is_live now e && (not (length e.resolved_ip == 0) && bytes_eq e.resolved_ip ip)) ≡ true
hit now e ip ne h = rw (h.live, h.address, (bytes_eq_iff ip ip).1 refl, nonempty ip ne) refl
  where
    nonempty : (s : Bytes) → s ≢ [] → (length s == 0) ≡ false
    nonempty [] n = absurd (n refl)
    nonempty (x ∷ s) n = ground arith

and_true : (a b : Bool) → (a && b) ≡ true → (a ≡ true) × (b ≡ true)
and_true true b h = (refl, h)
and_true false b h = cc

-- A live entry with the address anywhere in the cache makes the lookup succeed.
pub lookup-IsFor :
    (now : ℕ) (es : List DnsEntry) (ip : Bytes) (i : ℕ) (e : DnsEntry)
    → ip ≢ []
    → get_elem? es i ≡ some e
    → IsFor now ip e
    → (e' : DnsEntry) × (lookup now es ip ≡ some e') × IsFor now ip e'
unfolding lookup
lookup-IsFor now [] ip i e ne g h = cc
lookup-IsFor now (x ∷ es) ip zero e ne g h =
    let same : x ≡ e = cc in (e, rw (same, hit now e ip ne h) refl, h)
lookup-IsFor now (x ∷ es) ip (suc i) e ne g h =
    elim (Bool-cases
      (is_live now x && (not (length x.resolved_ip == 0) && bytes_eq x.resolved_ip ip))) [
        | inl y ↦
            let (l, r) = and_true _ _ y in
            (
              x,
              rw y refl,
              record { live = l; address = (bytes_eq_iff x.resolved_ip ip).0 (and_true _ _ r).1 },
            )
        | inr n ↦ let (e', f, w) = lookup-IsFor now es ip i e ne g h in (e', rw n f, w)
      ]

new_entry-IsFor :
    (now : ℕ) (domain ip : Bytes) (rule_id : ℤ) (action : Action) (proxy_id chain_id : ℤ)
    → length ip ≤ 45
    → IsFor now ip (new_entry now domain ip rule_id action proxy_id chain_id)
new_entry-IsFor now domain ip rule_id action proxy_id chain_id fits = record {
  live = ground arith;
  address = take-all 45 ip fits;
}

pub cache_add-some :
    (now : ℕ) (cache : List DnsEntry) (domain ip : Bytes) (rule_id : ℤ) (action : Action)
    (proxy_id chain_id : ℤ) (slot : ℕ)
    → find_slot now cache domain ≡ some slot
    → cache_add now cache domain ip rule_id action proxy_id chain_id
      ≡ set cache slot (new_entry now domain ip rule_id action proxy_id chain_id)
unfolding cache_add
cache_add-some now cache domain ip rule_id action proxy_id chain_id slot h = rw (h, cache_add) refl

pub slot_fits :
    (now : ℕ) (cache : List DnsEntry) (domain : Bytes) (slot : ℕ)
    → find_slot now cache domain ≡ some slot
    → slot < length cache
unfolding find_slot
slot_fits now cache domain slot h = elim (slot_inside now domain cache 0 slot none h) [
  | inl e ↦ absurd cc
  | inr (le, lt) ↦ omega arith
]

-- An address is found as soon as it is added: if the cache has a slot for the domain, a lookup of a
-- non-empty address of at most 45 bytes right after `pf_dns_cache_add` returns a live entry with
-- that very address.
pub lookup-cache_add :
    (now : ℕ) (cache : List DnsEntry) (domain ip : Bytes) (rule_id : ℤ) (action : Action)
    (proxy_id chain_id : ℤ) (slot : ℕ)
    → find_slot now cache domain ≡ some slot
    → ip ≢ []
    → length ip ≤ 45
    → (e : DnsEntry) × (lookup now
          (cache_add now cache domain ip rule_id action proxy_id chain_id)
          ip
        ≡ some e)
      × IsFor now ip e
lookup-cache_add now cache domain ip rule_id action proxy_id chain_id slot found ne fits =
    let new = new_entry now domain ip rule_id action proxy_id chain_id in
    rw (cache_add-some now cache domain ip rule_id action proxy_id chain_id slot found) (
      lookup-IsFor now (set cache slot new) ip slot new ne
        (get-set cache slot new (slot_fits now cache domain slot found))
        (new_entry-IsFor now domain ip rule_id action proxy_id chain_id fits))

-- Whatever `pf_dns_lookup` returns is live and has the address that was asked for.
pub lookup_sound :
    (now : ℕ) (es : List DnsEntry) (ip : Bytes) (e : DnsEntry)
    → lookup now es ip ≡ some e
    → IsFor now ip e
unfolding lookup
lookup_sound now [] ip e h = cc
lookup_sound now (x ∷ es) ip e h =
    elim (Bool-cases
      (is_live now x && (not (length x.resolved_ip == 0) && bytes_eq x.resolved_ip ip))) [
        | inl y ↦
            let (l, r) = and_true _ _ y in
            let k : some x ≡ some e = rw y at h in
            let same : x ≡ e = cc in
            rw (← same)
              (record { live = l; address = (bytes_eq_iff x.resolved_ip ip).0 (and_true _ _ r).1 })
        | inr n ↦ lookup_sound now es ip e (rw n at h)
      ]
