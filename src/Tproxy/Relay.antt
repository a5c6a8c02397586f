-- ===== src/Tproxy/Relay.antt =====
-- `pf_tproxy_relay` of daemon/src/tproxy.c. What the sockets do is given for each attempt.
use proxiflare.Prelude.{
  ℕ, zero, suc, ◌+◌, ◌%◌, ◌^◌, min, Bool, true, false, not, ◌&&◌, Option, none, some, List, [], ◌∷◌,
  ◌++◌, ◌==◌, if◌then◌else◌, Bytes, length, get_elem?, set, take, drop,
}
use proxiflare.Tproxy.{Connection, Tproxy, close_conn}

-- What a write() or SSL_write() of the relay gives: bytes taken, a retry later, or an error.
pub data Write : Type 0 where
  wrote : ℕ → Write
  retry : Write
  fatal : Write

-- What a read gives: at least one byte, a retry later, or the end or an error.
pub data Read : Type 0 where
  chunk : ℕ → Bytes → Read
  again : Read
  over : Read

pub data Flow : Type 0 where
  flushed stalled cut : Flow

-- The loop that writes what was read: the rounds left and the number of the attempt; the result says
-- how it ends, and what was written. An attempt of no byte counts as closed.
unfoldable pub write_loop : (ℕ → Write) → ℕ → ℕ → Bytes → Flow × Bytes
write_loop writes fuel i [] = (flushed, [])
write_loop writes zero i (x ∷ xs) = (stalled, [])
write_loop writes (suc fuel) i (x ∷ xs) = elim (writes i) [
  | fatal ↦ (cut, [])
  | retry ↦ (stalled, [])
  | wrote k ↦
      (let n = min k (length (x ∷ xs)) in
        let (flow, out) = write_loop writes fuel (i + 1) (drop n (x ∷ xs)) in
        if n == 0 then (cut, []) else (flow, take n (x ∷ xs) ++ out))
]

-- A round writes a byte at least.
unfoldable pub write_all : (ℕ → Write) → Bytes → Flow × Bytes
unfolding write_loop
write_all writes got = write_loop writes (length got) 0 got

-- One direction of the relay: whether it goes on, the bytes counted, and those written.
pub record Pumped : Type 0 where
  pub alive : Bool
  pub counted : Bytes
  pub written : Bytes

abbrev pub after_write : Bytes → Flow × Bytes → Pumped
after_write got (cut, out) = record { alive = false; counted = []; written = out }
after_write got (flushed, out) = record { alive = true; counted = got; written = out }
after_write got (stalled, out) = record { alive = true; counted = got; written = out }

unfoldable pub pump : (ℕ → Write) → Read → Pumped
unfolding write_all
pump writes (chunk b got) = after_write (b ∷ got) (write_all writes (b ∷ got))
pump writes again = record { alive = true; counted = []; written = [] }
pump writes over = record { alive = false; counted = []; written = [] }

-- What both directions meet.
pub record Io : Type 0 where
  pub client_read : Read
  pub proxy_read : Read
  pub proxy_writes : ℕ → Write
  pub client_writes : ℕ → Write

-- PF_OK or PF_ERR, the table, what each end was sent, and the chunks handed to `g_inspect_cb` with
-- `is_request`.
pub record Relayed : Type 0 where
  pub result : Bool
  pub table : Tproxy
  pub to_proxy : Bytes
  pub to_client : Bytes
  pub captured : List (Bool × Bytes)

abbrev pub captured_of : Bool → Bool → Bytes → List (Bool × Bytes)
captured_of inspect is_request [] = []
captured_of inspect is_request (b ∷ got) = if inspect then (is_request, b ∷ got) ∷ [] else []

abbrev pub with_conn : Tproxy → ℕ → Connection → Tproxy
with_conn tp i c = record tp { conns = set tp.conns i c }

abbrev pub add64 : ℕ → ℕ → ℕ
add64 a b = (a + b) % 2 ^ 64

-- `inspect` of the connection and a callback that is set.
unfoldable pub relay_conn : Io → Bool → Tproxy → ℕ → Connection → Relayed
unfolding pump close_conn
relay_conn io has_cb tp i c =
    let up = pump io.proxy_writes io.client_read in
    let down = pump io.client_writes io.proxy_read in
    let sent = record c { bytes_tx = add64 c.bytes_tx (length up.counted) } in
    let both = record sent { bytes_rx = add64 c.bytes_rx (length down.counted) } in
    let request = captured_of (c.inspect && has_cb) true up.counted in
    let response = captured_of (c.inspect && has_cb) false down.counted in
    if not up.alive
    then record {
      result = false;
      table = close_conn tp i;
      to_proxy = up.written;
      to_client = [];
      captured = [];
    }
    else if not down.alive
    then record {
      result = false;
      table = close_conn (with_conn tp i sent) i;
      to_proxy = up.written;
      to_client = down.written;
      captured = request;
    }
    else record {
      result = true;
      table = with_conn tp i both;
      to_proxy = up.written;
      to_client = down.written;
      captured = request ++ response;
    }

abbrev pub is_open : Connection → Bool
is_open c = c.active && not (is_none c.client_fd) && not (is_none c.proxy_fd)
  where
    is_none : Option ℕ → Bool
    is_none none = true
    is_none (some fd) = false

abbrev pub no_relay : Tproxy → Relayed
no_relay tp = record { result = false; table = tp; to_proxy = []; to_client = []; captured = [] }

-- `pf_tproxy_relay`
unfoldable pub relay : Io → Bool → Tproxy → ℕ → Relayed
unfolding relay_conn
relay io has_cb tp i = elim (get_elem? tp.conns i) [
  | none ↦ no_relay tp
  | some c ↦ if is_open c then relay_conn io has_cb tp i c else no_relay tp
]
