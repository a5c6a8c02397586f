-- ===== src/SshPool.antt =====
-- daemon/src/proxy_ssh.c: the pool of SSH sessions. What the C library and libssh2 answer is the
-- record `Ssh`, over a world that they change. The log records each socket and session that is
-- opened or closed. The calls are taken one after the other. In the code pool_mutex orders only the
-- choice of a session: pf_ssh_connect uses and invalidates it after the mutex is released.
pub mod Owned
pub mod Opening
pub mod Sound
pub mod Free
pub mod Calls
pub mod Settled
use proxiflare.Prelude.{
  ℕ, zero, suc, ◌+◌, Bool, true, false, not, ◌&&◌, ◌||◌, Option, none, some, List, [], ◌∷◌, ◌==◌,
  ltb, if◌then◌else◌, Bytes, length, take, set, get_elem?, replicate, codes,
}
use proxiflare.Prelude.Int.{ℤ, pos, eqb_ℤ, to_int}
use proxiflare.Types.{Proxy, ProxyType, ssh}

-- pf_proxy_t with the path of its key.
pub record SshProxy : Type 0 where
  pub proxy : Proxy
  pub ssh_key_path : Bytes

pub record Ssh (W : Type 0) : Type 0 where
  -- getaddrinfo, and what stands for its addresses in order
  pub getaddrinfo : Bytes → ℕ → W → Option (List ℕ) × W
  pub socket : ℕ → W → Option ℕ × W
  pub connect : ℕ → ℕ → W → Bool × W
  pub session_init : W → Option ℕ × W
  pub session_handshake : ℕ → ℕ → W → Bool × W
  pub userauth_password : ℕ → Bytes → Bytes → W → Bool × W
  pub userauth_publickey : ℕ → Bytes → Bytes → W → Bool × W
  pub channel_direct_tcpip : ℕ → Bytes → ℕ → W → Option ℕ × W
  pub channel_free : ℕ → W → W

-- What has to be given back.
pub data Handle : Type 0 where
  sock ssh_session : ℕ → Handle

pub data Event : Type 0 where
  opened closed : Handle → Event

pub record State (W : Type 0) : Type 0 where
  pub world : W
  pub log : List Event

abbrev pub M : Type 0 → Type 0 → Type 0
M W A = State W → A × State W

infixl 5 ◌>>=◌ ◌>>◌
abbrev pub ◌>>=◌ : {W A B : Type 0} → M W A → (A → M W B) → M W B
◌>>=◌ m f s = let (a, s') = m s in f a s'

abbrev pub ◌>>◌ : {W B : Type 0} → M W (Unit {0}) → M W B → M W B
m >> k = m >>= λ _. k

abbrev pub ret : {W A : Type 0} → A → M W A
ret a s = (a, s)

-- A call of a library.
unfoldable pub ask : {W A : Type 0} → (W → A × W) → M W A
ask f s = let (a, w) = f s.world in (a, record s { world = w })

unfoldable pub note : {W : Type 0} → Event → M W (Unit {0})
note e s = (tt, record s { log = e ∷ s.log })

-- A call that opens what `handle` names, if it succeeds.
unfoldable pub acquire : {W : Type 0} → (ℕ → Handle) → (W → Option ℕ × W) → M W (Option ℕ)
unfolding ask note
acquire handle f = do
  a ← ask f
  elim a [ none ↦ ret none | some n ↦ do note (opened (handle n)); ret (some n) ]

-- close, or libssh2_session_disconnect and libssh2_session_free.
unfoldable pub release : {W : Type 0} → Handle → M W (Unit {0})
unfolding note
release h = note (closed h)

-- pf_ssh_session_t; a sock_fd of -1 and a NULL session are `none`.
pub record Slot : Type 0 where
  pub session : Option ℕ
  pub sock_fd : Option ℕ
  pub proxy_id : ℤ
  pub connected : Bool

-- PF_MAX_PROXIES
abbrev pub max_proxies : ℕ
max_proxies = 256

pub record Pool : Type 0 where
  pub sessions : List Slot
  pub count : ℕ

abbrev pub no_session : Slot
no_session = record { session = none; sock_fd = none; proxy_id = pos 0; connected = false }

unfoldable pub pool_init : Pool
pool_init = record { sessions = replicate max_proxies no_session; count = 0 }

unfoldable pub release_opt : {W : Type 0} → (ℕ → Handle) → Option ℕ → M W (Unit {0})
unfolding release
release_opt handle none = ret tt
release_opt handle (some n) = release (handle n)

unfoldable pub session_invalidate : {W : Type 0} → Slot → M W Slot
unfolding release_opt
session_invalidate s = do
  release_opt ssh_session s.session
  release_opt sock s.sock_fd
  ret (record s { session = none; sock_fd = none; connected = false })

-- The loop of `pf_ssh_get_session`: an index, or the first slot that is not connected.
pub data Search : Type 0 where
  hit : ℕ → Search
  missed : Option ℕ → Search

abbrev pub first_of : Option ℕ → ℕ → Option ℕ
first_of none i = some i
first_of (some j) i = some j

unfoldable pub search_from : ℤ → List Slot → ℕ → Option ℕ → Search
search_from id [] i free_slot = missed free_slot
search_from id (s ∷ ss) i free_slot =
    let rest =
      search_from id ss (i + 1) (if s.connected then free_slot else first_of free_slot i) in
    if eqb_ℤ s.proxy_id id && s.connected then hit i else rest

-- The slot for a new session.
abbrev pub slot_for : Pool → Option ℕ → Option ℕ
slot_for pool free_slot = if ltb pool.count max_proxies then some pool.count else free_slot

abbrev pub user_of : Proxy → Bytes
user_of p = if length p.username == 0 then codes "root" else p.username

abbrev pub is_ssh : ProxyType → Bool
is_ssh ssh = true
is_ssh _ = false

module _ {W : Type 0} (lib : Ssh W) where
  -- The loop of `tcp_connect` over the addresses.
  unfoldable pub connect_loop : List ℕ → M W (Option ℕ)
  unfolding ask acquire release
  connect_loop [] = ret none
  connect_loop (a ∷ addrs) = do
    fd ← acquire sock (lib.socket a)
    elim fd [
      | none ↦ connect_loop addrs
      | some n ↦ do
        up ← ask (lib.connect n a)
        elim up [ true ↦ ret (some n) | false ↦ do release (sock n); connect_loop addrs ]
    ]

  unfoldable pub tcp_connect : Bytes → ℕ → M W (Option ℕ)
  unfolding ask connect_loop
  tcp_connect host port = do
    res ← ask (lib.getaddrinfo host port)
    elim res [ none ↦ ret none | some addrs ↦ connect_loop addrs ]

  -- The password goes before the key; with neither of them there is no call.
  unfoldable pub authenticate : ℕ → SshProxy → M W Bool
  unfolding ask
  authenticate session p =
      if not (length p.proxy.password == 0)
      then ask (lib.userauth_password session (user_of p.proxy) p.proxy.password)
      else if not (length p.ssh_key_path == 0)
      then ask (lib.userauth_publickey session (user_of p.proxy) p.ssh_key_path)
      else ret false

  unfoldable pub give_up : ℕ → ℕ → M W (Option Slot)
  unfolding release
  give_up session fd = do release (ssh_session session); release (sock fd); ret none

  unfoldable pub log_in : ℕ → ℕ → SshProxy → M W (Option Slot)
  unfolding ask authenticate give_up
  log_in session fd p = do
    shaken ← ask (lib.session_handshake session fd)
    elim shaken [
      | false ↦ give_up session fd
      | true ↦ do
        granted ← authenticate session p
        elim granted [
          | false ↦ give_up session fd
          | true ↦ ret (
              some (record {
                session = some session;
                sock_fd = some fd;
                proxy_id = to_int p.proxy.id;
                connected = true;
              }))
        ]
    ]

  unfoldable pub session_create : SshProxy → M W (Option Slot)
  unfolding acquire release tcp_connect log_in
  session_create p = do
    fd ← tcp_connect p.proxy.host p.proxy.port
    elim fd [
      | none ↦ ret none
      | some n ↦ do
        session ← acquire ssh_session lib.session_init
        elim session [ none ↦ do release (sock n); ret none | some s ↦ log_in s n p ]
    ]

  -- A new session in the slot `k`, which is cleared first.
  unfoldable pub open_in : Pool → SshProxy → ℕ → M W (Pool × Option ℕ)
  unfolding session_create
  open_in pool p k = do
    made ← session_create p
    elim made [
      | none ↦ ret (record pool { sessions = set pool.sessions k no_session }, none)
      | some s ↦ ret (
        record {
          sessions = set pool.sessions k s;
          count = if k == pool.count then pool.count + 1 else pool.count;
        },
        some k,
      )
    ]

  unfoldable pub get_session : Pool → SshProxy → M W (Pool × Option ℕ)
  unfolding search_from open_in
  get_session pool p =
      elim (search_from (to_int p.proxy.id) (take pool.count pool.sessions) 0 none) [
        | hit i ↦ ret (pool, some i)
        | missed free_slot ↦ elim (slot_for pool free_slot) [
          | none ↦ ret (pool, none)
          | some k ↦ open_in pool p k
        ]
      ]

  -- libssh2_channel_direct_tcpip on the session in slot `i`.
  unfoldable pub open_channel : Pool → ℕ → Bytes → ℕ → M W (Option ℕ)
  unfolding ask
  open_channel pool i dst_host dst_port = elim (get_elem? pool.sessions i) [
    | none ↦ ret none
    | some s ↦ elim s.session [
      | none ↦ ret none
      | some n ↦ ask (lib.channel_direct_tcpip n dst_host dst_port)
    ]
  ]

  unfoldable pub invalidate_at : Pool → ℕ → M W Pool
  unfolding session_invalidate
  invalidate_at pool i = elim (get_elem? pool.sessions i) [
    | none ↦ ret pool
    | some s ↦ do s' ← session_invalidate s; ret (record pool { sessions = set pool.sessions i s' })
  ]

  -- From `retry_connect:` on, with what is done where the channel is not opened.
  unfoldable pub connect_or :
      (Pool → ℕ → M W (Pool × Option ℕ)) → Pool → SshProxy → Bytes → ℕ → M W (Pool × Option ℕ)
  unfolding get_session open_channel
  connect_or failed pool p dst_host dst_port = do
    (pool', found) ← get_session pool p
    elim found [
      | none ↦ ret (pool', none)
      | some i ↦ do
        channel ← open_channel pool' i dst_host dst_port
        elim channel [ some c ↦ ret (pool', some c) | none ↦ failed pool' i ]
    ]

  -- The second and last attempt.
  unfoldable pub reconnect : SshProxy → Bytes → ℕ → Pool → ℕ → M W (Pool × Option ℕ)
  unfolding connect_or invalidate_at
  reconnect p dst_host dst_port pool i = do
    pool' ← invalidate_at pool i
    connect_or (λ pool'' _. ret (pool'', none)) pool' p dst_host dst_port

  unfoldable pub ssh_connect : Pool → SshProxy → Bytes → ℕ → M W (Pool × Option ℕ)
  unfolding reconnect
  ssh_connect pool p dst_host dst_port =
      if ltb dst_port 1 || ltb 65535 dst_port
      then ret (pool, none)
      else connect_or (reconnect p dst_host dst_port) pool p dst_host dst_port

  -- The loop of `pf_ssh_pool_close` over `n` slots from `i` on.
  unfoldable pub close_from : ℕ → ℕ → Pool → M W Pool
  unfolding invalidate_at
  close_from zero i pool = ret pool
  close_from (suc n) i pool = do
    pool' ← elim (get_elem? pool.sessions i) [
      | none ↦ ret pool
      | some s ↦ elim s.connected [ false ↦ ret pool | true ↦ invalidate_at pool i ]
    ]
    close_from n (i + 1) pool'

  unfoldable pub pool_close : Pool → M W Pool
  unfolding close_from
  pool_close pool = do pool' ← close_from pool.count 0 pool; ret (record pool' { count = 0 })

  -- The channel of `pf_ssh_test`; the clock is not modelled.
  unfoldable pub ssh_test : Pool → SshProxy → M W (Pool × Bool)
  unfolding ssh_connect ask
  ssh_test pool p = if not (is_ssh p.proxy.type) then ret (pool, false) else do
    (pool', channel) ← ssh_connect pool p (codes "httpbin.org") 443
    elim channel [
      | none ↦ ret (pool', false)
      | some c ↦ do ask (λ w. (tt, lib.channel_free c w)); ret (pool', true)
    ]
