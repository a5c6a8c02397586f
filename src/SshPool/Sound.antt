-- ===== src/SshPool/Sound.antt =====
-- The pool of daemon/src/proxy_ssh.c is well formed over each of its operations.
use proxiflare.Prelude.{
  ℕ, zero, suc, ◌+◌, ◌≤◌, ◌<◌, ◌≡◌, ◌≢◌, ◌⊎◌, inl, inr, refl, sym, ap, ◌∙◌, true, false, ◌&&◌,
  Option, none, some, List, [], ◌∷◌, if◌then◌else◌, length, set, get_elem?, length-set, replicate,
  length-replicate, Bool-cases, Option-cases, arith,
}
use proxiflare.Prelude.Int.{ℤ, eqb_ℤ}
use proxiflare.SshPool.{
  Slot, no_session, max_proxies, Pool, pool_init, hit, missed, first_of, search_from,
}

pub record IsIdle (s : Slot) : Type 0 where
  pub no_handle : s.session ≡ none
  pub no_socket : s.sock_fd ≡ none

-- 256 slots; one that is not connected holds nothing; those that are connected stand below `count`,
-- one for each proxy at most.
pub record IsSound (pool : Pool) : Type 0 where
  pub size : length pool.sessions ≡ max_proxies
  pub bound : pool.count ≤ max_proxies
  pub idle :
      (i : ℕ) (s : Slot) → get_elem? pool.sessions i ≡ some s → s.connected ≡ false → IsIdle s
  pub live :
      (i : ℕ) (s : Slot) → get_elem? pool.sessions i ≡ some s → s.connected ≡ true → i < pool.count
  pub unique :
      (i j : ℕ) (a b : Slot)
      → get_elem? pool.sessions i ≡ some a
      → get_elem? pool.sessions j ≡ some b
      → a.connected ≡ true
      → b.connected ≡ true
      → a.proxy_id ≡ b.proxy_id
      → i ≡ j

pub get-set :
    (ss : List Slot) (k i : ℕ) (v s : Slot)
    → get_elem? (set ss k v) i ≡ some s
    → ((k ≡ i) × (v ≡ s)) ⊎ ((k ≢ i) × (get_elem? ss i ≡ some s))
get-set [] k i v s g = cc
get-set (x ∷ ss) zero zero v s g = inl (refl, cc)
get-set (x ∷ ss) zero (suc i) v s g = inr (omega arith, g)
get-set (x ∷ ss) (suc k) zero v s g = inr (omega arith, g)
get-set (x ∷ ss) (suc k) (suc i) v s g = elim (get-set ss k i v s g) [
  | inl (e, f) ↦ inl (ap suc e, f)
  | inr (n, f) ↦ inr ((λ e. n (omega arith)), f)
]

-- A slot is written: idle, or connected where no other is for its proxy.
pub set-IsSound :
    (pool : Pool) (k n : ℕ) (v : Slot)
    → IsSound pool
    → pool.count ≤ n
    → n ≤ max_proxies
    → (v.connected ≡ false → IsIdle v)
    → (v.connected ≡ true → k < n)
    → ((i : ℕ) (s : Slot)
        → get_elem? pool.sessions i ≡ some s
        → s.connected ≡ true
        → v.connected ≡ true
        → s.proxy_id ≡ v.proxy_id
        → k ≡ i)
    → IsSound (record { sessions = set pool.sessions k v; count = n })
set-IsSound pool k n v h le bound idle live alone = record {
  size = length-set pool.sessions k v ∙ h.size;
  bound = bound;
  idle = λ i s g c. elim (get-set pool.sessions k i v s g) [
    | inl (e, f) ↦ rw (← f) (idle (ap (λ (x : Slot). x.connected) f ∙ c))
    | inr (ne, f) ↦ h.idle i s f c
  ];
  live = λ i s g c. elim (get-set pool.sessions k i v s g) [
    | inl (e, f) ↦ let m = live (ap (λ (x : Slot). x.connected) f ∙ c) in omega arith
    | inr (ne, f) ↦ let m = h.live i s f c in omega arith
  ];
  unique = λ i j a b ga gb ca cb e. elim (get-set pool.sessions k i v a ga) [
    | inl (ei, fa) ↦ elim (get-set pool.sessions k j v b gb) [
      | inl (ej, fb) ↦ sym ei ∙ ej
      | inr (nj, fb) ↦
          let w =
            alone j b fb cb (ap (λ (x : Slot). x.connected) fa ∙ ca)
              (sym e ∙ ap (λ (x : Slot). x.proxy_id) (sym fa)) in
          sym ei ∙ w
    ]
    | inr (ni, fa) ↦ elim (get-set pool.sessions k j v b gb) [
      | inl (ej, fb) ↦
          let w =
            alone i a fa ca (ap (λ (x : Slot). x.connected) fb ∙ cb)
              (e ∙ ap (λ (x : Slot). x.proxy_id) (sym fb)) in
          sym w ∙ ej
      | inr (nj, fb) ↦ h.unique i j a b fa fb ca cb e
    ]
  ];
}

get-replicate : (n i : ℕ) (v s : Slot) → get_elem? (replicate n v) i ≡ some s → v ≡ s
get-replicate zero i v s g = cc
get-replicate (suc n) zero v s g = cc
get-replicate (suc n) (suc i) v s g = get-replicate n i v s g

pub pool_init-IsSound : IsSound pool_init
unfolding pool_init
pool_init-IsSound = record {
  size = length-replicate max_proxies no_session;
  bound = omega arith;
  idle = λ i s g c.
      rw (← get-replicate max_proxies i no_session s g)
        (record { no_handle = refl; no_socket = refl });
  live = λ i s g c. let e = get-replicate max_proxies i no_session s g in cc;
  unique = λ i j a b ga gb ca cb e. let f = get-replicate max_proxies i no_session a ga in cc;
}

-- A search that misses: no slot that is connected is for the proxy, and the free slot is not
-- connected.
pub record IsMiss (id : ℤ) (ss : List Slot) (i : ℕ) (free_slot r : Option ℕ) : Type 0 where
  pub apart : (k : ℕ) (s : Slot) → get_elem? ss k ≡ some s → s.connected ≡ true → s.proxy_id ≢ id
  pub free :
      (j : ℕ)
      → r ≡ some j
      → (free_slot ≡ some j)
        ⊎ ((k : ℕ) × (s : Slot) × (j ≡ i + k) × (get_elem? ss k ≡ some s) × (s.connected ≡ false))

eqb_refl : (a : ℤ) → eqb_ℤ a a ≡ true
eqb_refl a = ground arith

pub search-IsMiss :
    (id : ℤ) (ss : List Slot) (i : ℕ) (free_slot r : Option ℕ)
    → search_from id ss i free_slot ≡ missed r
    → IsMiss id ss i free_slot r
unfolding search_from
search-IsMiss id [] i free_slot r e = record {
  apart = λ k s g c. cc;
  free = λ j h. let e' : free_slot ≡ r = ground arith in inl (e' ∙ h);
}
search-IsMiss id (s ∷ ss) i free_slot r e = elim (Bool-cases (eqb_ℤ s.proxy_id id && s.connected)) [
  | inl y ↦ let h : hit i ≡ missed r = rw y at e in cc
  | inr n ↦ rest n (
      search-IsMiss id ss (i + 1) (if s.connected then free_slot else first_of free_slot i) r
        (rw n at e))
]
  where
    here :
        (eqb_ℤ s.proxy_id id && s.connected) ≡ false
        → (k : ℕ) (s' : Slot) → get_elem? (s ∷ ss) k ≡ some s'
        → s'.connected ≡ true
        → IsMiss id ss (i + 1) (if s.connected then free_slot else first_of free_slot i) r
        → s'.proxy_id ≢ id
    here n zero s' g c m e' =
        let same : s ≡ s' = cc in
        let c' : s.connected ≡ true = ap (λ (x : Slot). x.connected) same ∙ c in
        let i' : s.proxy_id ≡ id = ap (λ (x : Slot). x.proxy_id) same ∙ e' in
        absurd (let b : true ≡ false = (rw (i', eqb_refl id, c') at n) in cc)
    here n (suc k) s' g c m e' = m.apart k s' g c e'

    given :
        (j : ℕ)
        → (s.connected ≡ true) ⊎ (s.connected ≡ false)
        → (if s.connected then free_slot else first_of free_slot i) ≡ some j
        → (free_slot ≡ some j)
          ⊎ ((k : ℕ) × (x : Slot) × (j ≡ i + k)
              × (get_elem? (s ∷ ss) k ≡ some x)
              × (x.connected ≡ false))
    given j (inl t) g = inl (rw t at g)
    given j (inr f) g =
        let g' : first_of free_slot i ≡ some j = rw f at g in
        elim (Option-cases free_slot) [
          | inl z ↦
              let g'' : some i ≡ some j = rw z at g' in
              let e' : i ≡ j = ground arith in inr (0, s, sym e' ∙ omega arith, refl, f)
          | inr (x, z) ↦ let g'' : some x ≡ some j = rw z at g' in inl (z ∙ g'')
        ]

    rest :
        (eqb_ℤ s.proxy_id id && s.connected) ≡ false
        → IsMiss id ss (i + 1) (if s.connected then free_slot else first_of free_slot i) r
        → IsMiss id (s ∷ ss) i free_slot r
    rest n m = record {
      apart = λ k s' g c. here n k s' g c m;
      free = λ j f. elim (m.free j f) [
        | inl g ↦ given j (Bool-cases s.connected) g
        | inr (k, s', e', g, c) ↦ inr (suc k, s', omega arith, g, c)
      ];
    }
