-- ===== src/Dns/Unique.antt =====
-- The cache of dns.c never holds two live entries for one domain.
use proxiflare.Prelude.{
  ℕ, zero, suc, ◌+◌, ◌-◌, ◌≤◌, ◌<◌, ◌≡◌, ◌≢◌, inl, inr, refl, sym, ap, ◌∙◌, Bool, true, false, ◌&&◌,
  Option, none, some, List, [], ◌∷◌, ◌==◌, Bytes, length, arith, Bool-cases, Option-cases, set,
  get_elem?, replicate, take, take-all, lower, eq_ci, eq_ci_iff, ==_iff,
}
use proxiflare.Prelude.Int.{ℤ, negsuc, to_int}
use proxiflare.Types.{Rule, Action, direct}
use proxiflare.Libc.{Libc}
use proxiflare.Rules.{rules_match}
use proxiflare.Rules.Match.{domain_max}
use proxiflare.Sni.Reader.{done, Safe-done}
use proxiflare.Dns.{
  DnsEntry, is_live, find_slot_loop, find_slot, new_entry, cache_add, reuse_or, cache_size,
}
use proxiflare.Dns.Callback.{Ntop, add_matched, add_for, domain_query, fill, resolve, dns_callback}
use proxiflare.Dns.Kept.{dns_callback-Safe}

-- A live entry for the domain, in any spelling.
pub record IsLiveFor (now : ℕ) (domain : Bytes) (e : DnsEntry) : Type 0 where
  pub live : is_live now e ≡ true
  pub same : lower e.domain ≡ lower domain

-- At the time `now`, no two slots hold live entries for one domain.
abbrev pub IsUnique : ℕ → List DnsEntry → Type 0
IsUnique now cache =
    (i j : ℕ) (a b : DnsEntry) (domain : Bytes)
    → get_elem? cache i ≡ some a
    → get_elem? cache j ≡ some b
    → IsLiveFor now domain a
    → IsLiveFor now domain b
    → i ≡ j

-- If the cache has a live entry for the domain, the slot found is that of one.
find_slot-live :
    (now : ℕ) (domain : Bytes) (es : List DnsEntry) (i0 : ℕ) (reuse : Option ℕ) (i : ℕ)
    (e : DnsEntry)
    → get_elem? es i ≡ some e
    → IsLiveFor now domain e
    → (k : ℕ) × (b : DnsEntry) × (find_slot_loop now domain es i0 reuse ≡ some (i0 + k))
      × (get_elem? es k ≡ some b)
      × IsLiveFor now domain b
unfolding find_slot_loop
find_slot-live now domain [] i0 reuse i e g l = cc
find_slot-live now domain (x ∷ es) i0 reuse zero e g l =
    let here : e ≡ x = cc in
    let l' : IsLiveFor now domain x = rw here at l in
    (0, x, rw (l'.live, (eq_ci_iff x.domain domain).1 l'.same) (ap some (omega arith)), refl, l')
find_slot-live now domain (x ∷ es) i0 reuse (suc i) e g l = elim (Bool-cases (is_live now x)) [
  | inr dead ↦
      let (k, b, f, gb, lb) = find_slot-live now domain es (i0 + 1) (reuse_or reuse i0) i e g l in
      (suc k, b, rw dead (f ∙ ap some (omega arith)), gb, lb)
  | inl live ↦ elim (Bool-cases (eq_ci x.domain domain)) [
    | inl y ↦ (
      0,
      x,
      rw (live, y) (ap some (omega arith)),
      refl,
      record { live = live; same = (eq_ci_iff x.domain domain).0 y },
    )
    | inr n ↦
        let (k, b, f, gb, lb) = find_slot-live now domain es (i0 + 1) reuse i e g l in
        (suc k, b, rw (live, n) (f ∙ ap some (omega arith)), gb, lb)
  ]
]

get-set_self :
    (es : List DnsEntry) (k : ℕ) (v b : DnsEntry) → get_elem? (set es k v) k ≡ some b → v ≡ b
get-set_self [] k v b g = cc
get-set_self (x ∷ es) zero v b g = cc
get-set_self (x ∷ es) (suc k) v b g = get-set_self es k v b g

get-set_ne :
    (es : List DnsEntry) (k j : ℕ) (v : DnsEntry)
    → k ≢ j
    → get_elem? (set es k v) j ≡ get_elem? es j
get-set_ne [] k j v ne = refl
get-set_ne (x ∷ es) zero zero v ne = absurd (ne refl)
get-set_ne (x ∷ es) zero (suc j) v ne = refl
get-set_ne (x ∷ es) (suc k) zero v ne = refl
get-set_ne (x ∷ es) (suc k) (suc j) v ne = get-set_ne es k j v (λ e. ne (ap suc e))

module _ (now : ℕ) (domain : Bytes) (es : List DnsEntry) (slot : ℕ)
    (found : find_slot now es domain ≡ some slot) (unique : IsUnique now es) where
  -- A live entry for the domain stands in the slot that is found, and nowhere else.
  only_there : (i : ℕ) (e : DnsEntry) → get_elem? es i ≡ some e → IsLiveFor now domain e → slot ≡ i
  unfolding find_slot
  only_there i e g l =
      let (k, b, f, gb, lb) = find_slot-live now domain es 0 none i e g l in
      let same : some slot ≡ some (0 + k) = sym found ∙ f in
      let at : slot ≡ k = ground arith in at ∙ unique k i b e domain gb g lb l

  -- A write into that slot of an entry for the domain.
  set-IsUnique : (v : DnsEntry) → lower v.domain ≡ lower domain → IsUnique now (set es slot v)
  set-IsUnique v named i j a b other ga gb la lb = elim (Bool-cases (slot == i)) [
    | inl yi ↦ elim (Bool-cases (slot == j)) [
      | inl yj ↦ sym ((==_iff slot i).0 yi) ∙ (==_iff slot j).0 yj
      | inr nj ↦ sym ((==_iff slot i).0 yi) ∙ left i j a b ga gb la lb yi nj
    ]
    | inr ni ↦ elim (Bool-cases (slot == j)) [
      | inl yj ↦ sym (left j i b a gb ga lb la yj ni) ∙ (==_iff slot j).0 yj
      | inr nj ↦ unique i j a b other (old i a ga ni) (old j b gb nj) la lb
    ]
  ]
    where
      apart : (k : ℕ) → (slot == k) ≡ false → slot ≢ k
      apart k n e = let y : (slot == k) ≡ true = (==_iff slot k).1 e in cc

      old :
          (k : ℕ) (e : DnsEntry)
          → get_elem? (set es slot v) k ≡ some e
          → (slot == k) ≡ false
          → get_elem? es k ≡ some e
      old k e g n = sym (get-set_ne es slot k v (apart k n)) ∙ g

      -- The new entry, and a live one elsewhere for what would be the same domain.
      left :
          (i j : ℕ) (a b : DnsEntry)
          → get_elem? (set es slot v) i ≡ some a
          → get_elem? (set es slot v) j ≡ some b
          → IsLiveFor now other a
          → IsLiveFor now other b
          → (slot == i) ≡ true
          → (slot == j) ≡ false
          → slot ≡ j
      left i j a b ga gb la lb yi nj =
          let e : slot ≡ i = (==_iff slot i).0 yi in
          let new : v ≡ a = get-set_self es slot v a (rw (← e) at ga) in
          let spelled : lower b.domain ≡ lower domain =
            lb.same ∙ sym la.same ∙ ap (λ (x : DnsEntry). lower x.domain) (sym new) ∙ named in
          only_there j b (old j b gb nj) (record { live = lb.live; same = spelled })

module _ (libc : Libc) (ntop : Ntop) (rules : List Rule) (now : ℕ) where
  cache_add-IsUnique :
      (c : List DnsEntry) (domain ip : Bytes) (rule_id : ℤ) (action : Action)
      (proxy_id chain_id : ℤ)
      → length domain < domain_max
      → IsUnique now c
      → IsUnique now (cache_add now c domain ip rule_id action proxy_id chain_id)
  unfolding cache_add
  cache_add-IsUnique c domain ip rule_id action proxy_id chain_id lt u =
      elim (Option-cases (find_slot now c domain)) [
        | inl e ↦ rw (e, cache_add) u
        | inr (slot, e) ↦
            rw (e, cache_add)
              (set-IsUnique now domain c slot e u
                (new_entry now domain ip rule_id action proxy_id chain_id)
                (ap lower (take-all (domain_max - 1) domain (omega arith))))
      ]

  add_for-IsUnique :
      (c : List DnsEntry) (domain ip : Bytes) (r : Option Rule)
      → length domain < domain_max
      → IsUnique now c
      → IsUnique now (add_for now c domain ip r)
  add_for-IsUnique c domain ip none lt u =
      cache_add-IsUnique c domain ip (negsuc 0) direct (negsuc 0) (negsuc 0) lt u
  add_for-IsUnique c domain ip (some r) lt u =
      cache_add-IsUnique c domain ip (to_int r.id) r.action (to_int r.proxy_id) (to_int r.chain_id)
        lt u

  add_matched-IsUnique :
      (c : List DnsEntry) (domain ip : Bytes)
      → length domain < domain_max
      → IsUnique now c
      → IsUnique now (add_matched libc ntop rules now c domain ip)
  unfolding add_matched
  add_matched-IsUnique c domain ip lt u =
      add_for-IsUnique c domain ip (rules_match libc rules (domain_query domain)) lt u

  fill-IsUnique :
      (c : List DnsEntry) (domain ip : Bytes) (ttl slot : ℕ) (o : Option DnsEntry)
      → find_slot now c domain ≡ some slot
      → length domain < domain_max
      → IsUnique now c
      → IsUnique now (fill libc ntop rules now c domain ip ttl slot o)
  unfolding fill
  fill-IsUnique c domain ip ttl slot none f lt u = u
  fill-IsUnique c domain ip ttl slot (some e) f lt u =
      elim (Bool-cases (e.used && eq_ci e.domain domain)) [
        | inl y ↦ rw y (
            set-IsUnique now domain c slot f u
              (record e { resolved_ip = take 45 ip; expires = now + ttl })
              ((eq_ci_iff e.domain domain).0 (both e.used (eq_ci e.domain domain) y)))
        | inr n ↦ rw n (add_matched-IsUnique c domain ip lt u)
      ]
    where
      both : (p q : Bool) → (p && q) ≡ true → q ≡ true
      both true q h = h
      both false q h = cc

  resolve-IsUnique :
      (c : List DnsEntry) (domain ip : Bytes) (ttl : ℕ)
      → length domain < domain_max
      → IsUnique now c
      → IsUnique now (resolve libc ntop rules now c domain ip ttl)
  unfolding resolve
  resolve-IsUnique c domain ip ttl lt u = elim (Option-cases (find_slot now c domain)) [
    | inl e ↦ rw (e, resolve) u
    | inr (slot, e) ↦ rw (e, resolve) (fill-IsUnique c domain ip ttl slot (get_elem? c slot) e lt u)
  ]

-- What is live later was live before.
later-IsUnique : (t t' : ℕ) (c : List DnsEntry) → t ≤ t' → IsUnique t c → IsUnique t' c
later-IsUnique t t' c le u i j a b domain ga gb la lb =
    u i j a b domain ga gb (earlier a la) (earlier b lb)
  where
    earlier : (e : DnsEntry) → IsLiveFor t' domain e → IsLiveFor t domain e
    earlier e l = let h = l.live in record { live = ground arith; same = l.same }

replicate-IsUnique : (t : ℕ) (e : DnsEntry) → e.used ≡ false → (n : ℕ) → IsUnique t (replicate n e)
replicate-IsUnique t e dead n i j a b domain ga gb la lb = absurd (none_live n i a ga la)
  where
    none_live :
        (n i : ℕ) (a : DnsEntry) → get_elem? (replicate n e) i ≡ some a → IsLiveFor t domain a → ⊥
    none_live zero i a g l = cc
    none_live (suc n) zero a g l =
        let same : a ≡ e = cc in
        let l' : IsLiveFor t domain e = rw same at l in let h = l'.live in ground arith
    none_live (suc n) (suc i) a g l = none_live n i a g l

-- The caches that packets and additions leave, at the time of the last one. An empty cache is all
-- unused entries.
pub data Reach (libc : Libc) (ntop : Ntop) : ℕ → List DnsEntry → Type 0 where
  start : (t : ℕ) (e : DnsEntry) → e.used ≡ false → Reach libc ntop t (replicate cache_size e)
  packet :
      {t t' : ℕ} {c c' : List DnsEntry} (rules : List Rule) (d : Bytes)
      → Reach libc ntop t c
      → t ≤ t'
      → dns_callback libc ntop rules t' d c ≡ done c'
      → Reach libc ntop t' c'
  added :
      {t t' : ℕ} {c : List DnsEntry} (domain ip : Bytes) (rule_id : ℤ) (action : Action)
      (proxy_id chain_id : ℤ)
      → Reach libc ntop t c
      → t ≤ t'
      → length domain < domain_max
      → Reach libc ntop t' (cache_add t' c domain ip rule_id action proxy_id chain_id)

-- In every cache that packets, whatever they hold, and additions of domains that fit the field
-- reach from an empty one, under whatever rules, while the clock does not go back, no two slots hold
-- live entries for one domain, in any spelling.
pub Reach-IsUnique :
    {libc : Libc} {ntop : Ntop} {now : ℕ} {cache : List DnsEntry}
    → Reach libc ntop now cache
    → IsUnique now cache
Reach-IsUnique {libc} {ntop} (start t e dead) = replicate-IsUnique t e dead cache_size
Reach-IsUnique {libc} {ntop} (packet {t} {t'} {c} {c'} rules d r le e) =
    Safe-done
      (dns_callback-Safe libc ntop rules t' (IsUnique t') (add_matched-IsUnique libc ntop rules t')
        (resolve-IsUnique libc ntop rules t') d c (later-IsUnique t t' c le (Reach-IsUnique r)))
      e
Reach-IsUnique {libc} {ntop}
      (added {t} {t'} {c} domain ip rule_id action proxy_id chain_id r le lt) =
    cache_add-IsUnique libc ntop [] t' c domain ip rule_id action proxy_id chain_id lt
      (later-IsUnique t t' c le (Reach-IsUnique r))
