-- ===== src/Dns/Held.antt =====
-- The slot of a domain in the cache of dns.c, once its entry is written.
use proxiflare.Prelude.{
  ℕ, zero, suc, ◌+◌, ◌≤◌, ◌<◌, ◌≡◌, inl, inr, refl, sym, ap, ◌∙◌, true, false, Option, none, some,
  List, [], ◌∷◌, Bytes, length, arith, Bool-cases, set, get_elem?, take, eq_ci, eq_ci_iff,
}
use proxiflare.Types.{Rule}
use proxiflare.Libc.{Libc}
use proxiflare.Dns.{DnsEntry, is_live, find_slot_loop, find_slot, reuse_or}
use proxiflare.Dns.Lookup.{slot_fits}
use proxiflare.Dns.Unique.{IsLiveFor}
use proxiflare.Dns.Callback.{Ntop, resolve, fill}

-- The loop stops at the entry that is written where it stopped before, also at a later time.
find_slot_loop-set :
    (t t' : ℕ) (domain : Bytes) (es : List DnsEntry) (i k : ℕ) (reuse reuse' : Option ℕ)
    (v : DnsEntry)
    → t ≤ t'
    → k < length es
    → IsLiveFor t' domain v
    → find_slot_loop t domain es i reuse ≡ some (i + k)
    → find_slot_loop t' domain (set es k v) i reuse' ≡ some (i + k)
unfolding find_slot_loop
find_slot_loop-set t t' domain [] i k reuse reuse' v le lt l f = absurd (omega arith)
find_slot_loop-set t t' domain (x ∷ es) i zero reuse reuse' v le lt l f =
    rw (l.live, (eq_ci_iff v.domain domain).1 l.same) (ap some (omega arith))
find_slot_loop-set t t' domain (x ∷ es) i (suc k) reuse reuse' v le lt l f =
    let e : some (i + 1 + k) ≡ some (i + suc k) = ap some (omega arith) in
    elim (Bool-cases (is_live t x)) [
      | inr dead ↦
          let dead' : is_live t' x ≡ false = ground arith in
          let f' : find_slot_loop t domain es (i + 1) (reuse_or reuse i) ≡ some (i + suc k) =
            rw dead at f in
          rw dead' (
            find_slot_loop-set t t' domain es (i + 1) k (reuse_or reuse i) (reuse_or reuse' i) v le
              (omega arith) l (f' ∙ sym e)
            ∙ e)
      | inl live ↦ elim (Bool-cases (eq_ci x.domain domain)) [
        | inl y ↦
            let f' : some i ≡ some (i + suc k) = rw (live, y) at f in
            absurd (let n : i ≡ i + suc k = ground arith in omega arith)
        | inr n ↦
            let f' : find_slot_loop t domain es (i + 1) reuse ≡ some (i + suc k) =
              rw (live, n) at f in
            elim (Bool-cases (is_live t' x)) [
              | inl live' ↦
                  rw (live', n)
                    (find_slot_loop-set t t' domain es (i + 1) k reuse reuse' v le (omega arith) l
                        (f' ∙ sym e)
                      ∙ e)
              | inr dead' ↦ rw dead' (
                  find_slot_loop-set t t' domain es (i + 1) k reuse (reuse_or reuse' i) v le
                    (omega arith) l (f' ∙ sym e)
                  ∙ e)
            ]
      ]
    ]

pub set-set : (es : List DnsEntry) (k : ℕ) (a b : DnsEntry) → set (set es k a) k b ≡ set es k b
set-set [] k a b = refl
set-set (x ∷ es) zero a b = refl
set-set (x ∷ es) (suc k) a b = ap (◌∷◌ x) (set-set es k a b)

-- The slot that was found stays the domain's slot once a live entry for it stands there.
pub find_slot-set :
    (t t' : ℕ) (domain : Bytes) (es : List DnsEntry) (slot : ℕ) (v : DnsEntry)
    → t ≤ t'
    → IsLiveFor t' domain v
    → find_slot t es domain ≡ some slot
    → find_slot t' (set es slot v) domain ≡ some slot
unfolding find_slot
find_slot-set t t' domain es slot v le l f =
    let z : some (0 + slot) ≡ some slot = ap some (omega arith) in
    find_slot_loop-set t t' domain es 0 slot none none v le (slot_fits t es domain slot f) l
      (f ∙ sym z)
    ∙ z

-- An answer for an entry in that slot sets its address and its time.
pub resolve-held :
    (libc : Libc) (ntop : Ntop) (rules : List Rule) (now : ℕ) (c : List DnsEntry)
    (domain ip : Bytes) (ttl slot : ℕ) (e : DnsEntry)
    → find_slot now c domain ≡ some slot
    → get_elem? c slot ≡ some e
    → IsLiveFor now domain e
    → resolve libc ntop rules now c domain ip ttl
      ≡ set c slot (record e { resolved_ip = take 45 ip; expires = now + ttl })
unfolding resolve fill
resolve-held libc ntop rules now c domain ip ttl slot e f g l =
    let used : e.used ≡ true = let h = l.live in ground arith in
    rw (f, resolve, g, used, (eq_ci_iff e.domain domain).1 l.same) refl
