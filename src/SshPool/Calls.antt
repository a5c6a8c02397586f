-- ===== src/SshPool/Calls.antt =====
-- What the calls of daemon/src/proxy_ssh.c for a session and for a channel open, close and leave in the pool.
use proxiflare.Prelude.{
  ℕ, ◌+◌, ◌≡◌, ◌≢◌, inl, inr, refl, sym, ap, ◌∙◌, true, false, ◌||◌, Option, none, some, ◌==◌, ltb,
  if◌then◌else◌, Bytes, take, set, get_elem?, Bool-cases, Option-cases, arith,
}
use proxiflare.Prelude.Int.{to_int}
use proxiflare.SshPool.{
  Ssh, SshProxy, Handle, M, ◌>>=◌, ret, ask, Slot, no_session, Pool, Search, hit, missed,
  search_from, slot_for, session_invalidate, open_in, get_session, open_channel, invalidate_at,
  connect_or, reconnect, ssh_connect,
}
use proxiflare.SshPool.Owned.{
  held, held_all, held_all-set, Owns, Owns-bind, Owns-ret, Owns-given, Owns-frame, ask-Owns,
  session_invalidate-Owns,
}
use proxiflare.SshPool.Opening.{session_create-Owns, IsMade, held_opt}
use proxiflare.SshPool.Sound.{IsSound, IsMiss, get-set, set-IsSound, search-IsMiss}
use proxiflare.SshPool.Free.{take-get, IsFree, slot_for-IsFree}

module _ (h : Handle) {W : Type 0} (lib : Ssh W) where
  abbrev pub SoundPool : Pool × Option ℕ → Type 0
  SoundPool r = IsSound r.0

  abbrev pub held_by : Pool × Option ℕ → ℕ
  held_by r = held_all h r.0.sessions

  free_holds :
      (pool : Pool) (s : Slot) (k : ℕ)
      → IsSound pool
      → get_elem? pool.sessions k ≡ some s
      → s.connected ≡ false
      → held h s ≡ 0
  free_holds pool s k sound g c = let i = sound.idle k s g c in rw (i.no_handle, i.no_socket) refl

  open_in-Owns :
      (pool : Pool) (p : SshProxy) (k : ℕ)
      → IsSound pool
      → IsFree pool k
      → ((i : ℕ) (s : Slot)
          → get_elem? pool.sessions i ≡ some s
          → s.connected ≡ true
          → s.proxy_id ≢ to_int p.proxy.id)
      → Owns h (held_all h pool.sessions) SoundPool held_by (open_in lib pool p k)
  unfolding open_in
  open_in-Owns pool p k sound f apart =
      Owns-given h (omega arith)
        (Owns-bind h (Owns-frame h (held_all h pool.sessions) (session_create-Owns h lib p)) made)
    where
      clear : held h f.old ≡ 0
      clear = free_holds pool f.old k sound f.there f.unused

      made :
          (o : Option Slot)
          → IsMade h lib p o
          → Owns h {W = W} (held_opt h lib o + held_all h pool.sessions) SoundPool held_by (elim o [
            | none ↦ ret (record pool { sessions = set pool.sessions k no_session }, none)
            | some s ↦ ret (
              record {
                sessions = set pool.sessions k s;
                count = if k == pool.count then pool.count + 1 else pool.count;
              },
              some k,
            )
          ])
      made none m =
          Owns-ret h (record pool { sessions = set pool.sessions k no_session }, none)
            (set-IsSound pool k pool.count no_session sound (omega arith) sound.bound
              (λ _. record { no_handle = refl; no_socket = refl }) (λ c. cc) (λ i s g c c'. cc))
            (omega (arith, clear, held_all-set h pool.sessions k f.old no_session f.there))
      made (some s) (c, id) =
          let n = (if k == pool.count then pool.count + 1 else pool.count) in
          let lo = f.low in
          let hi = f.fits in
          let b = sound.bound in
          Owns-ret h (record { sessions = set pool.sessions k s; count = n }, some k)
            (set-IsSound pool k n s sound (ground arith) (ground arith) (λ c'. cc)
              (λ _. ground arith) (λ i t g ct cs e. absurd (apart i t g ct (e ∙ id))))
            (omega (arith, clear, held_all-set h pool.sessions k f.old s f.there))

  get_session-Owns :
      (pool : Pool) (p : SshProxy)
      → IsSound pool
      → Owns h (held_all h pool.sessions) SoundPool held_by (get_session lib pool p)
  unfolding get_session
  get_session-Owns pool p sound =
      let id = to_int p.proxy.id in
      let found = search_from id (take pool.count pool.sessions) 0 none in searched found refl
    where
      placed :
          (r o : Option ℕ)
          → IsMiss (to_int p.proxy.id) (take pool.count pool.sessions) 0 none r
          → slot_for pool r ≡ o
          → Owns h {W = W}
              (held_all h pool.sessions)
              SoundPool
              held_by
              (elim o [ none ↦ ret (pool, none) | some k ↦ open_in lib pool p k ])
      placed r none m e = Owns-ret h (pool, none) sound refl
      placed r (some k) m e =
          open_in-Owns pool p k sound (slot_for-IsFree pool (to_int p.proxy.id) r k sound m e)
            (λ i s g c.
              m.apart i s (take-get pool.count i pool.sessions s (sound.live i s g c) g) c)

      searched :
          (x : Search)
          → search_from (to_int p.proxy.id) (take pool.count pool.sessions) 0 none ≡ x
          → Owns h {W = W} (held_all h pool.sessions) SoundPool held_by (elim x [
            | hit i ↦ ret (pool, some i)
            | missed free_slot ↦ elim (slot_for pool free_slot) [
              | none ↦ ret (pool, none)
              | some k ↦ open_in lib pool p k
            ]
          ])
      searched (hit i) e = Owns-ret h (pool, some i) sound refl
      searched (missed r) e =
          placed r (slot_for pool r)
            (search-IsMiss (to_int p.proxy.id) (take pool.count pool.sessions) 0 none r e) refl

  open_channel-Owns :
      (n : ℕ) (pool : Pool) (i : ℕ) (dst_host : Bytes) (dst_port : ℕ)
      → Owns h n (λ _. Unit {0}) (λ _. n) (open_channel lib pool i dst_host dst_port)
  unfolding open_channel
  open_channel-Owns n pool i dst_host dst_port = slot (get_elem? pool.sessions i)
    where
      slot :
          (o : Option Slot)
          → Owns h {W = W} {A = Option ℕ} n
              (λ _. Unit {0})
              (λ _. n)
              (elim o [
                | none ↦ ret none
                | some s ↦ elim s.session [
                  | none ↦ ret none
                  | some x ↦ ask (lib.channel_direct_tcpip x dst_host dst_port)
                ]
              ])
      slot none = Owns-ret h none tt refl
      slot (some s) = elim (Option-cases s.session) [
        | inl e ↦ rw e (Owns-ret h none tt refl)
        | inr (x, e) ↦ rw e (ask-Owns h n (lib.channel_direct_tcpip x dst_host dst_port))
      ]

  abbrev pub gone : Slot → Slot
  gone s = record s { session = none; sock_fd = none; connected = false }

  -- Slot `i` is not connected afterwards, and the others are as they were.
  abbrev pub Without : ℕ → Pool → Pool → Type 0
  Without i pool pool' =
      (j : ℕ) (s : Slot)
      → get_elem? pool'.sessions j ≡ some s
      → s.connected ≡ true
      → (i ≢ j) × (get_elem? pool.sessions j ≡ some s)

  pub absent :
      (pool : Pool) (i : ℕ) (o : Option Slot)
      → get_elem? pool.sessions i ≡ o
      → ((s : Slot) → o ≡ some s → s.connected ≡ false)
      → Without i pool pool
  absent pool i o e off j s g c = (apart, g)
    where
      apart : i ≢ j
      apart same = let z = off s (sym e ∙ ap (get_elem? pool.sessions) same ∙ g) in cc

  pub invalidate_at-Owns :
      (pool : Pool) (i : ℕ)
      → IsSound pool
      → Owns h
          (held_all h pool.sessions)
          (λ pool'. IsSound pool' × Without i pool pool')
          (λ pool'. held_all h pool'.sessions)
          (invalidate_at lib pool i)
  unfolding invalidate_at
  invalidate_at-Owns pool i sound = slot (get_elem? pool.sessions i) refl
    where
      kept :
          (s : Slot)
          → get_elem? pool.sessions i ≡ some s
          → (s' : Slot) → s' ≡ gone s
          → Owns h {W = W}
              (0 + held_all h (set pool.sessions i (gone s)))
              (λ pool'. IsSound pool' × Without i pool pool')
              (λ pool'. held_all h pool'.sessions)
              (ret (record pool { sessions = set pool.sessions i s' }))
      kept s e s' same = rw same (
          Owns-ret h (record pool { sessions = set pool.sessions i (gone s) })
            (
              set-IsSound pool i pool.count (gone s) sound (omega arith) sound.bound
                  (λ _. record { no_handle = refl; no_socket = refl }) (λ c. cc)
                  (λ j t g c c' _. cc),
              λ j t g c. elim (get-set pool.sessions i j (gone s) t g) [
                | inl (at, new) ↦
                    let z : false ≡ t.connected = ap (λ (x : Slot). x.connected) new in absurd cc
                | inr r ↦ r
              ],
            )
            (omega arith))

      slot :
          (o : Option Slot)
          → get_elem? pool.sessions i ≡ o
          → Owns h {W = W}
              (held_all h pool.sessions)
              (λ pool'. IsSound pool' × Without i pool pool')
              (λ pool'. held_all h pool'.sessions)
              (elim o [
                | none ↦ ret pool
                | some s ↦ session_invalidate s >>= λ s'.
                    ret (record pool { sessions = set pool.sessions i s' })
              ])
      slot none e = Owns-ret h pool (sound, absent pool i none e (λ s z. cc)) refl
      slot (some s) e =
          Owns-bind h
            (Owns-given h (sym (omega (arith, held_all-set h pool.sessions i s (gone s) e))) (
              Owns-frame h (held_all h (set pool.sessions i (gone s)))
                (session_invalidate-Owns h s)))
            (kept s e)

  connect_or-Owns :
      (failed : Pool → ℕ → M W (Pool × Option ℕ)) (pool : Pool) (p : SshProxy) (dst_host : Bytes)
      (dst_port : ℕ)
      → ((pool' : Pool) (i : ℕ)
          → IsSound pool'
          → Owns h (held_all h pool'.sessions) SoundPool held_by (failed pool' i))
      → IsSound pool
      → Owns h
          (held_all h pool.sessions)
          SoundPool
          held_by
          (connect_or lib failed pool p dst_host dst_port)
  unfolding connect_or
  connect_or-Owns failed pool p dst_host dst_port later sound =
      Owns-bind h (get_session-Owns pool p sound) got
    where
      opened_or :
          (pool' : Pool) (i : ℕ) (o : Option ℕ)
          → IsSound pool'
          → Owns h {W = W}
              (held_all h pool'.sessions)
              SoundPool
              held_by
              (elim o [ some c ↦ ret (pool', some c) | none ↦ failed pool' i ])
      opened_or pool' i none sound' = later pool' i sound'
      opened_or pool' i (some c) sound' = Owns-ret h (pool', some c) sound' refl

      got :
          (r : Pool × Option ℕ)
          → IsSound r.0
          → Owns h {W = W} (held_all h r.0.sessions) SoundPool held_by (elim r.1 [
            | none ↦ ret (r.0, none)
            | some i ↦ open_channel lib r.0 i dst_host dst_port >>= λ channel. elim channel [
              | some c ↦ ret (r.0, some c)
              | none ↦ failed r.0 i
            ]
          ])
      got (pool', none) sound' = Owns-ret h (pool', none) sound' refl
      got (pool', some i) sound' =
          Owns-bind h (open_channel-Owns (held_all h pool'.sessions) pool' i dst_host dst_port)
            λ o _. opened_or pool' i o sound'

  pub ssh_connect-Owns :
      (pool : Pool) (p : SshProxy) (dst_host : Bytes) (dst_port : ℕ)
      → IsSound pool
      → Owns h
          (held_all h pool.sessions)
          SoundPool
          held_by
          (ssh_connect lib pool p dst_host dst_port)
  unfolding ssh_connect reconnect
  ssh_connect-Owns pool p dst_host dst_port sound =
      elim (Bool-cases (ltb dst_port 1 || ltb 65535 dst_port)) [
        | inl y ↦ rw y (Owns-ret h (pool, none) sound refl)
        | inr n ↦ rw n (
            connect_or-Owns (reconnect lib p dst_host dst_port) pool p dst_host dst_port again
              sound)
      ]
    where
      again :
          (pool' : Pool) (i : ℕ)
          → IsSound pool'
          → Owns h
              (held_all h pool'.sessions)
              SoundPool
              held_by
              (reconnect lib p dst_host dst_port pool' i)
      again pool' i sound' = Owns-bind h (invalidate_at-Owns pool' i sound') λ pool'' r.
          connect_or-Owns (λ q _. ret (q, none)) pool'' p dst_host dst_port
            (λ q _ s. Owns-ret h (q, none) s refl) r.0
