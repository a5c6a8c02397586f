-- ===== src/SshPool/Free.antt =====
-- The slot that `pf_ssh_get_session` of daemon/src/proxy_ssh.c takes for a new session.
use proxiflare.Prelude.{
  ℕ, zero, suc, ◌≤◌, ◌<◌, ◌≡◌, inl, inr, false, Option, none, some, List, [], ◌∷◌, ltb, length,
  take, get_elem?, get_elem?-lt, Bool-cases, arith,
}
use proxiflare.Prelude.Int.{ℤ}
use proxiflare.SshPool.{Slot, max_proxies, Pool, slot_for}
use proxiflare.SshPool.Sound.{IsSound, IsMiss}

pub get-take :
    (n k : ℕ) (ss : List Slot) (s : Slot)
    → get_elem? (take n ss) k ≡ some s
    → get_elem? ss k ≡ some s
get-take zero k ss s g = cc
get-take (suc n) k [] s g = cc
get-take (suc n) zero (x ∷ ss) s g = g
get-take (suc n) (suc k) (x ∷ ss) s g = get-take n k ss s g

pub take-get :
    (n k : ℕ) (ss : List Slot) (s : Slot)
    → k < n
    → get_elem? ss k ≡ some s
    → get_elem? (take n ss) k ≡ some s
take-get zero k ss s lt g = absurd (omega arith)
take-get (suc n) k [] s lt g = cc
take-get (suc n) zero (x ∷ ss) s lt g = g
take-get (suc n) (suc k) (x ∷ ss) s lt g = take-get n k ss s (omega arith) g

-- A slot for a new session: it holds nothing, and stands at `count` at most.
pub record IsFree (pool : Pool) (k : ℕ) : Type 0 where
  pub old : Slot
  pub there : get_elem? pool.sessions k ≡ some old
  pub unused : old.connected ≡ false
  pub low : k ≤ pool.count
  pub fits : k < max_proxies

pub slot_for-IsFree :
    (pool : Pool) (id : ℤ) (r : Option ℕ) (k : ℕ)
    → IsSound pool
    → IsMiss id (take pool.count pool.sessions) 0 none r
    → slot_for pool r ≡ some k
    → IsFree pool k
slot_for-IsFree pool id r k h m e = elim (Bool-cases (ltb pool.count max_proxies)) [
  | inl y ↦
      let e' : some pool.count ≡ some k = rw y at e in
      let same : pool.count ≡ k = ground arith in
      let lt : k < length pool.sessions = let z = h.size in ground arith in
      let (s, g) = get_elem?-lt pool.sessions k lt in
      record {
        old = s;
        there = g;
        unused = elim (Bool-cases s.connected) [
          | inl c ↦ absurd (let l = h.live k s g c in omega arith)
          | inr c ↦ c
        ];
        low = omega arith;
        fits = ground arith;
      }
  | inr n ↦ elim (m.free k (rw n at e)) [
    | inl z ↦ cc
    | inr (j, s, at, g, c) ↦
        let g' = get-take pool.count j pool.sessions s g in
        let same : k ≡ j = omega arith in
        low_slot s g' c same (index_low pool.count j pool.sessions s g)
  ]
]
  where
    index_low : (n j : ℕ) (ss : List Slot) (s : Slot) → get_elem? (take n ss) j ≡ some s → j < n
    index_low zero j ss s g = cc
    index_low (suc n) j [] s g = cc
    index_low (suc n) zero (x ∷ ss) s g = omega arith
    index_low (suc n) (suc j) (x ∷ ss) s g = let i = index_low n j ss s g in omega arith

    low_slot :
        {j : ℕ} (s : Slot)
        → get_elem? pool.sessions j ≡ some s
        → s.connected ≡ false
        → k ≡ j
        → j < pool.count
        → IsFree pool k
    low_slot s g c same lt =
        let b = h.bound in
        record { old = s; there = rw same g; unused = c; low = omega arith; fits = omega arith }
