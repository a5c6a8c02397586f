-- ===== src/Tproxy.antt =====
-- daemon/src/tproxy.c, with the accept thread of daemon/src/main.c: the table of the redirected
-- connections and the relay between their two ends.
pub mod Relay
pub mod Counted
pub mod Slots
pub mod Pump
pub mod Leak
pub mod Blocked
use proxiflare.Prelude.{
  ℕ, zero, suc, ◌+◌, ◌-◌, ◌%◌, ◌^◌, min, Bool, true, false, not, ◌&&◌, ◌||◌, Option, none, some,
  List, [], ◌∷◌, ◌++◌, ◌==◌, ltb, if◌then◌else◌, Bytes, length, get_elem?, set, replicate, take,
  drop, c_text,
}
use proxiflare.Rules.Match.{domain_max}
use proxiflare.Sni.{extract}
use proxiflare.Sni.Reader.{Parse, done, reject, fault}
use proxiflare.Route.{Outcome, descriptor, unrouted, blocked}

-- pf_connection_t. A descriptor -1 is `none`; of the two SSL pointers it says whether they are set.
pub record Connection : Type 0 where
  pub client_fd : Option ℕ
  pub proxy_fd : Option ℕ
  pub client_ssl : Bool
  pub server_ssl : Bool
  pub domain : Bytes
  pub dst_ip : Bytes
  pub dst_port : ℕ
  pub bytes_tx : ℕ
  pub bytes_rx : ℕ
  pub active : Bool
  pub inspect : Bool
  pub is_tls : Bool

-- PF_MAX_CONNECTIONS
abbrev pub max_connections : ℕ
max_connections = 1024

-- The part of pf_tproxy_t that changes after `pf_tproxy_init`.
pub record Tproxy : Type 0 where
  pub conns : List Connection
  pub conn_count : ℕ

abbrev pub free_connection : Connection
free_connection = record {
  client_fd = none;
  proxy_fd = none;
  client_ssl = false;
  server_ssl = false;
  domain = [];
  dst_ip = [];
  dst_port = 0;
  bytes_tx = 0;
  bytes_rx = 0;
  active = false;
  inspect = false;
  is_tls = false;
}

-- `pf_tproxy_init`, once the kernel has granted its sockets.
unfoldable pub init : Tproxy
init = record { conns = replicate max_connections free_connection; conn_count = 0 }

-- `find_free_slot` from index `i` on.
unfoldable pub free_from : ℕ → List Connection → Option ℕ
free_from i [] = none
free_from i (c ∷ cs) = let rest = free_from (i + 1) cs in if c.active then rest else some i

unfoldable pub find_free_slot : Tproxy → Option ℕ
unfolding free_from
find_free_slot tp = free_from 0 tp.conns

abbrev pub closed : Connection → Connection
closed c = record c {
  client_fd = none;
  proxy_fd = none;
  client_ssl = false;
  server_ssl = false;
  active = false;
  inspect = false;
}

unfoldable pub close_conn : Tproxy → ℕ → Tproxy
close_conn tp i = elim (get_elem? tp.conns i) [
  | none ↦ tp
  | some c ↦
      if c.active
      then record {
        conns = set tp.conns i (closed c);
        conn_count = if ltb 0 tp.conn_count then tp.conn_count - 1 else tp.conn_count;
      }
      else tp
]

-- The loop of `pf_tproxy_close`, with the rounds left first; `close_conn` tests `active` itself.
unfoldable pub close_from : ℕ → ℕ → Tproxy → Tproxy
unfolding close_conn
close_from zero i tp = tp
close_from (suc rounds) i tp = close_from rounds (i + 1) (close_conn tp i)

unfoldable pub close_all : Tproxy → Tproxy
unfolding close_from
close_all tp = close_from max_connections 0 tp

-- What the kernel tells of a connection that accept() returns: the answer of SO_ORIGINAL_DST, the
-- bytes that the peek sees within its time, and what connect() to that address gives.
pub record Arrival : Type 0 where
  pub cfd : ℕ
  pub original : Option (Bytes × ℕ)
  pub peeked : Bytes
  pub reached : Option ℕ

pub data Incoming : Type 0 where
  nothing broken : Incoming
  arrived : Arrival → Incoming

-- What becomes of it. In all but the last case no descriptor is left open.
pub data Accepted : Type 0 where
  idle failed dropped : Accepted
  relayed : ℕ → Accepted

-- What is left in `domain`.
abbrev pub sni_text : Parse Bytes → Bytes
sni_text (done name) = c_text name
sni_text reject = []
sni_text fault = []

abbrev pub starts_tls : Bytes → Bool
starts_tls [] = false
starts_tls (b ∷ peeked) = b == 0x16

unfoldable pub peek_domain : Bytes → Bytes
unfolding extract c_text
peek_domain peeked = if starts_tls peeked then sni_text (extract peeked domain_max) else []

-- The descriptor towards the destination: the proxy's or, when the callback has none, one that is
-- connected straight to the original destination.
pub data Upstream : Type 0 where
  blocked_off unreachable : Upstream
  linked : ℕ → Upstream

abbrev pub direct_to : Option ℕ → Upstream
direct_to none = unreachable
direct_to (some fd) = linked fd

abbrev pub upstream : Outcome → Option ℕ → Upstream
upstream (descriptor fd) reached = linked fd
upstream blocked reached = blocked_off
upstream unrouted reached = direct_to reached

abbrev pub new_connection : ℕ → ℕ → Bytes → ℕ → Bytes → Connection
new_connection cfd fd dst_ip dst_port peeked = record {
  client_fd = some cfd;
  proxy_fd = some fd;
  client_ssl = false;
  server_ssl = false;
  domain = take (domain_max - 1) (peek_domain peeked);
  dst_ip = take 45 dst_ip;
  dst_port = dst_port;
  bytes_tx = 0;
  bytes_rx = 0;
  active = true;
  inspect = false;
  is_tls = starts_tls peeked;
}

abbrev pub claim : Tproxy → ℕ → Connection → Tproxy
claim tp slot c = record { conns = set tp.conns slot c; conn_count = tp.conn_count + 1 }

-- With the callback's answer: `tproxy_accept` has found the slot before it asks.
unfoldable pub enter : Tproxy → ℕ → ℕ → Bytes → ℕ → Bytes → Upstream → Accepted × Tproxy
enter tp slot cfd dst_ip dst_port peeked blocked_off = (dropped, tp)
enter tp slot cfd dst_ip dst_port peeked unreachable = (failed, tp)
enter tp slot cfd dst_ip dst_port peeked (linked fd) =
    (relayed slot, claim tp slot (new_connection cfd fd dst_ip dst_port peeked))

-- pf_mitm as the accept thread uses it: `ready` says that it is enabled and has a CA key, and the
-- handshakes with the server and with the client succeed or not.
pub record Mitm : Type 0 where
  pub enabled : Bool
  pub has_key : Bool
  pub wrap_server : ℕ → Bytes → Bool
  pub wrap_client : ℕ → Bytes → Bool

unfoldable pub intercept : Mitm → ℕ → ℕ → Bytes → Connection → Connection
intercept m cfd fd domain c =
    if m.enabled && m.has_key && c.is_tls && not (length domain == 0)
    then (let both = m.wrap_server fd domain && m.wrap_client cfd domain in
        record c { server_ssl = both; client_ssl = both; inspect = both })
    else record c { inspect = m.enabled && not c.is_tls }

-- The accept thread looks for its slot only now, under the lock.
unfoldable pub enter_late : Mitm → Tproxy → ℕ → Bytes → ℕ → Bytes → Upstream → Accepted × Tproxy
unfolding find_free_slot intercept
enter_late m tp cfd dst_ip dst_port peeked blocked_off = (dropped, tp)
enter_late m tp cfd dst_ip dst_port peeked unreachable = (failed, tp)
enter_late m tp cfd dst_ip dst_port peeked (linked fd) = elim (find_free_slot tp) [
  | none ↦ (failed, tp)
  | some slot ↦ (
    relayed slot,
    claim tp slot
        (intercept m cfd fd (peek_domain peeked) (new_connection cfd fd dst_ip dst_port peeked)),
  )
]

-- `connect_cb` with its user data, a state `S`.
abbrev pub Callback : Type 0 → Type 0
Callback S = Bytes → ℕ → Bytes → S → Outcome × S

module _ {S : Type 0} where
  -- With its slot found.
  abbrev pub accept_at :
      Option (Callback S) → Tproxy → Arrival → Bytes → ℕ → ℕ → S → (Accepted × Tproxy) × S
  accept_at none tp a dst_ip dst_port slot s = ((failed, tp), s)
  accept_at (some connect) tp a dst_ip dst_port slot s =
      let (o, s') = connect dst_ip dst_port (peek_domain a.peeked) s in
      (enter tp slot a.cfd dst_ip dst_port a.peeked (upstream o a.reached), s')

  abbrev pub accept_from :
      Option (Callback S) → Tproxy → Arrival → Bytes → ℕ → S → (Accepted × Tproxy) × S
  accept_from cb tp a dst_ip dst_port s = elim (find_free_slot tp) [
    | none ↦ ((failed, tp), s)
    | some slot ↦ accept_at cb tp a dst_ip dst_port slot s
  ]

  -- With the answer of SO_ORIGINAL_DST.
  abbrev pub accept_to :
      Option (Callback S) → Tproxy → Arrival → Option (Bytes × ℕ) → S → (Accepted × Tproxy) × S
  accept_to cb tp a none s = ((failed, tp), s)
  accept_to cb tp a (some (dst_ip, dst_port)) s = accept_from cb tp a dst_ip dst_port s

  -- `pf_tproxy_accept`
  unfoldable pub tproxy_accept :
      Option (Callback S) → Tproxy → Incoming → S → (Accepted × Tproxy) × S
  unfolding find_free_slot peek_domain enter
  tproxy_accept cb tp nothing s = ((idle, tp), s)
  tproxy_accept cb tp broken s = ((failed, tp), s)
  tproxy_accept cb tp (arrived a) s = accept_to cb tp a a.original s

  abbrev pub thread_to :
      Mitm
      → Option (Callback S)
      → Tproxy
      → Arrival
      → Option (Bytes × ℕ)
      → S
      → (Accepted × Tproxy) × S
  thread_to m cb tp a none s = ((failed, tp), s)
  thread_to m none tp a (some (dst_ip, dst_port)) s = ((failed, tp), s)
  thread_to m (some connect) tp a (some (dst_ip, dst_port)) s =
      let (o, s') = connect dst_ip dst_port (peek_domain a.peeked) s in
      (enter_late m tp a.cfd dst_ip dst_port a.peeked (upstream o a.reached), s')

  -- `tproxy_accept_thread`; `tp` is the table when it takes the lock.
  unfoldable pub accept_thread :
      Mitm → Option (Callback S) → Tproxy → Arrival → S → (Accepted × Tproxy) × S
  unfolding peek_domain enter_late
  accept_thread m cb tp a s = thread_to m cb tp a a.original s
