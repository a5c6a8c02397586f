-- ===== src/Tproxy/Slots.antt =====
-- The table of connections over any sequence of the operations of daemon/src/tproxy.c and of the
-- accept threads of daemon/src/main.c. Each operation is one step. The code orders them so only among
-- the accept threads, by conns_lock: pf_tproxy_relay closes a connection without it, and a run in
-- which that overlaps a thread's claim of a slot is not one of these.
use proxiflare.Prelude.{ℕ, ◌≤◌, ◌≡◌, Bool, Option, arith}
use proxiflare.Prelude.Counts.{count-length}
use proxiflare.Tproxy.{
  Tproxy, max_connections, init, close_conn, close_all, Arrival, Incoming, Mitm, Callback,
  tproxy_accept, accept_thread,
}
use proxiflare.Tproxy.Relay.{Io, relay}
use proxiflare.Tproxy.Counted.{
  IsCounted, is_active, init-IsCounted, close_conn-IsCounted, tproxy_accept-IsCounted,
  thread_to-IsCounted, close_from-IsCounted, relay-IsCounted,
}

module _ (S : Type 0) where
  -- One operation on the table, by the main loop or by an accept thread. `S` is what the callback
  -- works on.
  pub data Step (tp tp' : Tproxy) : Type 0 where
    accepts :
        (cb : Option (Callback S)) (a : Incoming) (s : S)
        → tp' ≡ (tproxy_accept cb tp a s).0.1
        → Step tp tp'
    accepts_late :
        (m : Mitm) (cb : Option (Callback S)) (a : Arrival) (s : S)
        → tp' ≡ (accept_thread m cb tp a s).0.1
        → Step tp tp'
    relays : (io : Io) (has_cb : Bool) (i : ℕ) → tp' ≡ (relay io has_cb tp i).table → Step tp tp'
    closes : (i : ℕ) → tp' ≡ close_conn tp i → Step tp tp'
    closes_all : tp' ≡ close_all tp → Step tp tp'

  pub data Reach : Tproxy → Type 0 where
    start : Reach init
    next : {tp tp' : Tproxy} → Reach tp → Step tp tp' → Reach tp'

  Step-IsCounted : {tp tp' : Tproxy} → Step tp tp' → IsCounted tp → IsCounted tp'
  unfolding close_all accept_thread
  Step-IsCounted {tp} (accepts cb a s e) h = rw e (tproxy_accept-IsCounted cb tp a s h)
  Step-IsCounted {tp} (accepts_late m cb a s e) h =
      rw e (thread_to-IsCounted m cb tp a a.original s h)
  Step-IsCounted {tp} (relays io has_cb i e) h = rw e (relay-IsCounted io has_cb tp i h)
  Step-IsCounted {tp} (closes i e) h = rw e (close_conn-IsCounted tp i h)
  Step-IsCounted {tp} (closes_all e) h = rw e (close_from-IsCounted max_connections 0 tp h)

  -- In every state that accepts, relays and closings reach from an empty table, in any order but no
  -- two of them at once, and whatever the kernel, the proxies and the peers answer, the table has its 1024 entries, and
  -- `conn_count` is the number of those that are active, so it never exceeds 1024.
  pub Reach-IsCounted : {tp : Tproxy} → Reach tp → IsCounted tp × (tp.conn_count ≤ max_connections)
  Reach-IsCounted r =
      let h = counted r in (h, omega (arith, h.size, h.count, count-length is_active _))
    where
      counted : {tp : Tproxy} → Reach tp → IsCounted tp
      counted start = init-IsCounted
      counted (next r st) = Step-IsCounted st (counted r)
