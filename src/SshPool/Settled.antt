-- ===== src/SshPool/Settled.antt =====
-- Whatever libssh2 and the network answer, the sockets and sessions that daemon/src/proxy_ssh.c has
-- opened and not closed are those that its pool holds.
use proxiflare.Prelude.{
  ℕ, zero, suc, ◌+◌, ◌≤◌, ◌<◌, ◌≡◌, ◌≢◌, ◌⊎◌, inl, inr, refl, sym, ap, ◌∙◌, Bool, true, false,
  Option, none, some, List, [], ◌∷◌, ◌==◌, ltb, Bytes, get_elem?, codes, Bool-cases, arith, ==_iff,
}
use proxiflare.SshPool.{
  Ssh, SshProxy, Handle, sock, State, M, ◌>>◌, ret, ask, Slot, Pool, pool_init, invalidate_at,
  ssh_connect, close_from, pool_close, ssh_test, is_ssh,
}
use proxiflare.SshPool.Owned.{
  opens, closes, held, held_all, Owns, Owns-bind, Owns-ret, Owns-weaken, ask-Owns,
}
use proxiflare.SshPool.Sound.{IsSound, IsIdle, pool_init-IsSound}
use proxiflare.SshPool.Calls.{Without, absent, invalidate_at-Owns, ssh_connect-Owns}

module _ (h : Handle) {W : Type 0} (lib : Ssh W) where
  -- The slots from `i` on, `n` of them, are not connected afterwards.
  abbrev Cleared : ℕ → ℕ → Pool → Pool → Type 0
  Cleared n i pool pool' =
      (j : ℕ) (s : Slot)
      → get_elem? pool'.sessions j ≡ some s
      → s.connected ≡ true
      → ((j < i) ⊎ (i + n ≤ j)) × (get_elem? pool.sessions j ≡ some s)

  close_from-Owns :
      (n i : ℕ) (pool : Pool)
      → IsSound pool
      → Owns h
          (held_all h pool.sessions)
          (λ pool'. IsSound pool' × Cleared n i pool pool')
          (λ pool'. held_all h pool'.sessions)
          (close_from lib n i pool)
  unfolding close_from
  close_from-Owns zero i pool sound = Owns-ret h pool (sound, λ j s g c. (side j, g)) refl
    where
      side : (j : ℕ) → (j < i) ⊎ (i + 0 ≤ j)
      side j = elim (Bool-cases (ltb j i)) [
        | inl y ↦ inl (ground arith)
        | inr n ↦ inr (ground arith)
      ]
  close_from-Owns (suc n) i pool sound =
      Owns-bind h (slot (get_elem? pool.sessions i) refl) λ pool' r.
        Owns-weaken h (close_from-Owns n (i + 1) pool' r.0)
          λ pool'' r'. (r'.0, λ j s g c. joined j pool' s r.1 (r'.1 j s g c) c)
    where
      joined :
          (j : ℕ) (pool' : Pool) (s : Slot)
          → Without h lib i pool pool'
          → ((j < i + 1) ⊎ (i + 1 + n ≤ j)) × (get_elem? pool'.sessions j ≡ some s)
          → s.connected ≡ true
          → ((j < i) ⊎ (i + suc n ≤ j)) × (get_elem? pool.sessions j ≡ some s)
      joined j pool' s w (side, g) c =
          let (ne, g') = w j s g c in
          (elim side [ inl lt ↦ inl (below j lt ne) | inr le ↦ inr (omega arith) ], g')
        where
          below : (j : ℕ) → j < i + 1 → i ≢ j → j < i
          below j lt ne = elim (Bool-cases (i == j)) [
            | inl y ↦ absurd (ne ((==_iff i j).0 y))
            | inr y ↦ ground arith
          ]

      slot :
          (o : Option Slot)
          → get_elem? pool.sessions i ≡ o
          → Owns h {W = W} {A = Pool}
              (held_all h pool.sessions)
              (λ pool'. IsSound pool' × Without h lib i pool pool')
              (λ pool'. held_all h pool'.sessions)
              (elim o [
                | none ↦ ret pool
                | some s ↦ elim s.connected [ false ↦ ret pool | true ↦ invalidate_at lib pool i ]
              ])
      slot none e = Owns-ret h pool (sound, absent h lib pool i none e (λ s z. cc)) refl
      slot (some s) e = elim (Bool-cases s.connected) [
        | inl y ↦ rw y (invalidate_at-Owns h lib pool i sound)
        | inr n' ↦ rw n' (
            Owns-ret h pool
              (
                sound,
                absent h lib pool i (some s) e
                    (λ t z. let w : s ≡ t = cc in ap (λ (x : Slot). x.connected) (sym w) ∙ n'),
              )
              refl)
      ]

  all_idle :
      (ss : List Slot)
      → ((i : ℕ) (s : Slot) → get_elem? ss i ≡ some s → IsIdle s)
      → held_all h ss ≡ 0
  all_idle [] f = refl
  all_idle (s ∷ ss) f =
      let i = f 0 s refl in
      let z : held h s ≡ 0 = rw (i.no_handle, i.no_socket) refl in
      omega (arith, all_idle ss (λ j t g. f (suc j) t g))

  -- Closing the pool gives back all that it holds.
  pool_close-Owns :
      (pool : Pool)
      → IsSound pool
      → Owns h (held_all h pool.sessions) IsSound (λ _. 0) (pool_close lib pool)
  unfolding pool_close
  pool_close-Owns pool sound = Owns-bind h (close_from-Owns pool.count 0 pool sound) λ pool' r.
      let off = none_left pool' r.1 in
      Owns-ret h (record pool' { count = 0 }) (emptied pool' r.0 off)
        (all_idle pool'.sessions (λ i s g. r.0.idle i s g (off i s g)))
    where
      none_left :
          (pool' : Pool)
          → Cleared pool.count 0 pool pool'
          → (i : ℕ) (s : Slot) → get_elem? pool'.sessions i ≡ some s
          → s.connected ≡ false
      none_left pool' w i s g = elim (Bool-cases s.connected) [
        | inr n ↦ n
        | inl y ↦
            let (side, g') = w i s g y in
            let lt = sound.live i s g' y in
            absurd (elim side [ inl below ↦ omega arith | inr above ↦ omega arith ])
      ]

      emptied :
          (pool' : Pool)
          → IsSound pool'
          → ((i : ℕ) (s : Slot) → get_elem? pool'.sessions i ≡ some s → s.connected ≡ false)
          → IsSound (record pool' { count = 0 })
      emptied pool' r off = record {
        size = r.size;
        bound = omega arith;
        idle = r.idle;
        live = λ i s g c. absurd (let z = off i s g in cc);
        unique = r.unique;
      }

  ssh_test-Owns :
      (pool : Pool) (p : SshProxy)
      → IsSound pool
      → Owns h
          (held_all h pool.sessions)
          (λ r. IsSound r.0)
          (λ r. held_all h r.0.sessions)
          (ssh_test lib pool p)
  unfolding ssh_test
  ssh_test-Owns pool p sound = elim (Bool-cases (is_ssh p.proxy.type)) [
    | inr n ↦ rw n (Owns-ret h (pool, false) sound refl)
    | inl y ↦ rw y (Owns-bind h (ssh_connect-Owns h lib pool p (codes "httpbin.org") 443 sound) got)
  ]
    where
      got :
          (r : Pool × Option ℕ)
          → IsSound r.0
          → Owns h {W = W} {A = Pool × Bool}
              (held_all h r.0.sessions)
              (λ q. IsSound q.0)
              (λ q. held_all h q.0.sessions)
              (elim r.1 [
                | none ↦ ret (r.0, false)
                | some c ↦ ask (λ w. (tt, lib.channel_free c w)) >> ret (r.0, true)
              ])
      got (pool', none) s = Owns-ret h (pool', false) s refl
      got (pool', some c) s =
          Owns-bind h (ask-Owns h (held_all h pool'.sessions) (λ w. (tt, lib.channel_free c w)))
            λ _ _. Owns-ret h (pool', true) s refl

pool_init-held : (h : Handle) → held_all h pool_init.sessions ≡ 0
unfolding pool_init
pool_init-held h = refl

-- Runs of the pool from its start, with the pool and the state that they reach.
pub data Reach {W : Type 0} (lib : Ssh W) : Pool → State W → Type 0 where
  start : (w : W) → Reach lib pool_init (record { world = w; log = [] })
  connects :
      {pool : Pool} {s : State W} (p : SshProxy) (dst_host : Bytes) (dst_port : ℕ)
      → Reach lib pool s
      → Reach lib
          (ssh_connect lib pool p dst_host dst_port s).0.0
          (ssh_connect lib pool p dst_host dst_port s).1
  tests :
      {pool : Pool} {s : State W} (p : SshProxy)
      → Reach lib pool s
      → Reach lib (ssh_test lib pool p s).0.0 (ssh_test lib pool p s).1

-- A pool whose handles are all that was opened and not closed.
pub record IsSettled {W : Type 0} (pool : Pool) (s : State W) : Type 0 where
  pub sound : IsSound pool
  pub settled : (h : Handle) → opens h s.log ≡ closes h s.log + held_all h pool.sessions

step-IsSettled :
    {W A : Type 0} (m : M W A) (pool_of : A → Pool) (pool : Pool) (s : State W)
    → IsSettled pool s
    → ((h : Handle)
        → Owns h
            (held_all h pool.sessions)
            (λ r. IsSound (pool_of r))
            (λ r. held_all h (pool_of r).sessions)
            m)
    → IsSettled (pool_of (m s).0) (m s).1
step-IsSettled m pool_of pool s i o = record {
  sound = (o (sock 0)).result s;
  settled = λ h. omega (arith, (o h).account s, i.settled h);
}

-- After any run of connections and tests, whatever the network, the servers and libssh2 answered,
-- every socket and every session was opened as often as it was closed and is held by the pool; the
-- pool has at most one connected session for a proxy; and closing the pool closes all that is open.
pub Reach-IsSettled :
    {W : Type 0} {lib : Ssh W} {pool : Pool} {s : State W}
    → Reach lib pool s
    → IsSettled pool s
      × ((h : Handle) → let after = (pool_close lib pool s).1.log in opens h after ≡ closes h after)
Reach-IsSettled {W} {lib} {pool} {s} r =
    let i = settled r in
    (i, λ h. omega (arith, i.settled h, (pool_close-Owns h lib pool i.sound).account s))
  where
    settled : {pool : Pool} {s : State W} → Reach lib pool s → IsSettled pool s
    settled (start w) = record {
      sound = pool_init-IsSound;
      settled = λ h. omega (arith, pool_init-held h);
    }
    settled (connects {pool} {s} p dst_host dst_port r) =
        step-IsSettled (ssh_connect lib pool p dst_host dst_port) (λ x. x.0) pool s (settled r)
          (λ h. ssh_connect-Owns h lib pool p dst_host dst_port (settled r).sound)
    settled (tests {pool} {s} p r) =
        step-IsSettled (ssh_test lib pool p) (λ x. x.0) pool s (settled r)
          (λ h. ssh_test-Owns h lib pool p (settled r).sound)
