-- ===== src/Ipc.antt =====
-- daemon/src/ipc.c: the clients of the control socket, and the requests that they send as lines.
pub mod Protocol
pub mod Clients
pub mod Framing
pub mod Send
use proxiflare.Prelude.{
  ℕ, zero, suc, ◌+◌, ◌-◌, min, Bool, true, false, not, ◌&&◌, ◌||◌, Option, none, some, List, [],
  ◌∷◌, ◌++◌, map, ◌==◌, ltb, leb, if◌then◌else◌, Bytes, codes, length, get_elem?, set, replicate,
  take, drop, bytes_eq, split_at, c_text,
}

-- PF_MAX_CLIENTS and PF_BUF_SIZE
abbrev pub max_clients : ℕ
max_clients = 16

abbrev pub buf_size : ℕ
buf_size = 8192

-- pf_ipc_client_t; `buf` holds the first `buf_len` bytes, and a descriptor -1 is `none`.
pub record Client : Type 0 where
  pub fd : Option ℕ
  pub buf : Bytes
  pub subscribed_log : Bool
  pub subscribed_stats : Bool

-- The part of pf_ipc_t that changes.
pub record Ipc : Type 0 where
  pub clients : List Client
  pub client_count : ℕ

abbrev pub free_client : Client
free_client = record { fd = none; buf = []; subscribed_log = false; subscribed_stats = false }

-- `pf_ipc_init`, once the kernel has granted its socket.
unfoldable pub init : Ipc
init = record { clients = replicate max_clients free_client; client_count = 0 }

abbrev pub is_used : Client → Bool
is_used c = elim c.fd [ none ↦ false | some fd ↦ true ]

-- `for (i = 0; i < PF_MAX_CLIENTS; i++) if (ipc->clients[i].fd < 0)`, from index `i` on.
unfoldable pub free_from : ℕ → List Client → Option ℕ
free_from i [] = none
free_from i (c ∷ cs) = let rest = free_from (i + 1) cs in if is_used c then rest else some i

-- What the kernel tells of a connection: its descriptor, the user of the peer, where `none` is a
-- getsockopt() that fails, and whether it can be made non-blocking.
pub record Peer : Type 0 where
  pub cfd : ℕ
  pub uid : Option ℕ
  pub nonblock : Bool

abbrev pub uid_refused : Option ℕ → Bool
uid_refused none = false
uid_refused (some uid) = not (uid == 0) && ltb uid 1000

abbrev pub new_client : ℕ → Client
new_client cfd = record free_client { fd = some cfd }

-- `pf_ipc_accept`: the slot, or `none` for -1, when the descriptor is closed.
unfoldable pub accept : Ipc → Option Peer → Option ℕ × Ipc
unfolding free_from
accept ipc none = (none, ipc)
accept ipc (some peer) =
    if uid_refused peer.uid
    then (none, ipc)
    else if leb max_clients ipc.client_count
    then (none, ipc)
    else if not peer.nonblock
    then (none, ipc)
    else elim (free_from 0 ipc.clients) [
      | none ↦ (none, ipc)
      | some i ↦ (
        some i,
        record {
          clients = set ipc.clients i (new_client peer.cfd);
          client_count = ipc.client_count + 1;
        },
      )
    ]

-- `client_remove`; the callers hold a client that is in use.
unfoldable pub client_remove : Ipc → ℕ → Ipc
client_remove ipc i = record {
  clients = set ipc.clients i free_client;
  client_count = ipc.client_count - 1;
}

abbrev pub without_fd : Client → Client
without_fd c = record c { fd = none }

-- `pf_ipc_close`, of the clients and their count; the rest of a client stays as it is.
unfoldable pub close : Ipc → Ipc
close ipc = record { clients = map without_fd ipc.clients; client_count = 0 }

-- What an attempt to write gives.
pub data Write : Type 0 where
  wrote : ℕ → Write
  interrupted : Write
  would_block : Write
  failed : Write

-- How `pf_ipc_send` ends, with what was written; `looping` is fuel that ran out.
pub data Sent : Type 0 where
  delivered : Sent
  gave_up : Bytes → Sent
  looping : Sent

-- The loop: the attempts left, the number of the attempt, the retries, what is written and what is
-- not. `writes i` is what the i-th write() does.
unfoldable pub send_loop : (ℕ → Write) → ℕ → ℕ → ℕ → Bytes → Bytes → Sent
send_loop writes fuel i retries sent [] = delivered
send_loop writes zero i retries sent (x ∷ xs) = looping
send_loop writes (suc fuel) i retries sent (x ∷ xs) = elim (writes i) [
  | failed ↦ gave_up sent
  | interrupted ↦ send_loop writes fuel (i + 1) retries sent (x ∷ xs)
  | would_block ↦
      (let rest = send_loop writes fuel (i + 1) (retries + 1) sent (x ∷ xs) in
        if ltb retries 50 then rest else gave_up sent)
  | wrote k ↦
      (let n = min k (length (x ∷ xs)) in
        send_loop writes fuel (i + 1) 0 (sent ++ take n (x ∷ xs)) (drop n (x ∷ xs)))
]

-- The printed message and a newline.
unfoldable pub send : (ℕ → Write) → ℕ → Bytes → Sent
unfolding send_loop
send writes fuel raw = send_loop writes fuel 0 0 [] (raw ++ 10 ∷ [])

-- `pf_ipc_broadcast_log` and `pf_ipc_broadcast_stats`: the descriptors that are sent the event.
unfoldable pub log_receivers : List Client → List ℕ
log_receivers [] = []
log_receivers (c ∷ cs) =
    let rest = log_receivers cs in
    elim c.fd [ none ↦ rest | some fd ↦ if c.subscribed_log then fd ∷ rest else rest ]

unfoldable pub stats_receivers : List Client → List ℕ
stats_receivers [] = []
stats_receivers (c ∷ cs) =
    let rest = stats_receivers cs in
    elim c.fd [ none ↦ rest | some fd ↦ if c.subscribed_stats then fd ∷ rest else rest ]
