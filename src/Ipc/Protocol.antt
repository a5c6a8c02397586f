-- ===== src/Ipc/Protocol.antt =====
-- `pf_ipc_process` of daemon/src/ipc.c: the requests of a client, line by line.
use proxiflare.Prelude.{
  ℕ, zero, suc, ◌-◌, Bool, true, false, Option, none, some, List, [], ◌∷◌, ◌++◌, ◌==◌,
  if◌then◌else◌, Bytes, codes, length, get_elem?, set, take, bytes_eq, split_at, c_text,
}
use proxiflare.Ipc.{Client, Ipc, buf_size, client_remove}

-- What the protocol takes from cJSON and from main.c: `J` are JSON values, and `S` is the state of
-- the daemon that the handler works on.
pub record Service (J S : Type 0) : Type 0 where
  -- cJSON_Parse of a C string
  pub parse : Bytes → Option J
  -- The "id" where it is a number, the "method" where it is a string, and the "params".
  pub id_of : J → Option J
  pub method_of : J → Option Bytes
  pub params_of : J → Option J
  -- `ipc->handler`, and whether it is set. It does not look at the client.
  pub has_handler : Bool
  pub handler : Bytes → Option J → S → Option J × S

-- The body of a response: an error for a request without a method, `true`, the handler's result,
-- the error of a handler that has none, or nothing.
pub data Body (J : Type 0) : Type 0 where
  missing_method success : Body J
  result : J → Body J
  internal_error : Body J
  no_body : Body J

pub record Response (J : Type 0) : Type 0 where
  pub id : Option J
  pub body : Body J

module _ {J S : Type 0} (service : Service J S) where
  -- The client's subscriptions, the daemon's state, and the responses sent so far.
  pub record Session : Type 0 where
    pub log_on : Bool
    pub stats_on : Bool
    pub daemon : S
    pub sent : List (Response J)

  abbrev pub respond : Option J → Body J → Session → Session
  respond id body s = record s { sent = s.sent ++ record { id = id; body = body } ∷ [] }

  abbrev pub body_of : Option J → Body J
  body_of none = internal_error
  body_of (some r) = result r

  abbrev pub handled : Option J → Bytes → Option J → Session → Session
  handled id method params s =
      let (r, d) = service.handler method params s.daemon in
      respond id (body_of r) (record s { daemon = d })

  -- A request with a method: the subscriptions, then the handler.
  unfoldable pub call : Option J → Bytes → Option J → Session → Session
  unfolding bytes_eq
  call id method params s =
      if bytes_eq method (codes "log.subscribe")
      then respond id success (record s { log_on = true })
      else if bytes_eq method (codes "log.unsubscribe")
      then respond id success (record s { log_on = false })
      else if bytes_eq method (codes "stats.subscribe")
      then respond id success (record s { stats_on = true })
      else if bytes_eq method (codes "stats.unsubscribe")
      then respond id success (record s { stats_on = false })
      else if service.has_handler
      then handled id method params s
      else respond id no_body s

  abbrev pub answer : Option J → Session → Session
  answer none s = s
  answer (some req) s = elim (service.method_of req) [
    | none ↦ respond (service.id_of req) missing_method s
    | some method ↦ call (service.id_of req) method (service.params_of req) s
  ]

  -- One line, up to a NUL inside it.
  unfoldable pub serve : Bytes → Session → Session
  unfolding call c_text
  serve line s = answer (service.parse (c_text line)) s

  -- `while (remaining > 0)`: the rounds left, what is at `start`, and what the loop leaves. A round
  -- takes a line and its newline.
  unfoldable pub lines_loop : ℕ → Bytes → Session → Session × Bytes
  unfolding serve split_at
  lines_loop zero start s = (s, start)
  lines_loop (suc rounds) start s = elim ((split_at 10 start).1) [
    | none ↦ (s, start)
    | some rest ↦ lines_loop rounds rest (serve ((split_at 10 start).0) s)
  ]

  unfoldable pub process_lines : Bytes → Session → Session × Bytes
  unfolding lines_loop
  process_lines buf s = lines_loop (length buf) buf s

  -- What a read puts behind `buf`: as much as the buffer has room for.
  unfoldable pub process_chunk : Bytes → Bytes → Session → Session × Bytes
  unfolding process_lines
  process_chunk buf chunk s = process_lines (buf ++ take (buf_size - length buf - 1) chunk) s

  -- What read() gives: some bytes, EAGAIN, or an error or the end.
  pub data Read : Type 0 where
    got : Bytes → Read
    later gone : Read

  -- 0 or -1, the clients, and the daemon's state with the responses.
  abbrev pub Processed : Type 0
  Processed = Bool × Ipc × S × List (Response J)

  abbrev pub kept_client : Ipc → ℕ → Client → Session × Bytes → Processed
  kept_client ipc i c (s, left) = (
    true,
    record ipc {
      clients =
          set ipc.clients i
            (record c { buf = left; subscribed_log = s.log_on; subscribed_stats = s.stats_on });
    },
    s.daemon,
    s.sent,
  )

  abbrev pub session_of : Client → S → Session
  session_of c d = record {
    log_on = c.subscribed_log;
    stats_on = c.subscribed_stats;
    daemon = d;
    sent = [];
  }

  abbrev pub process_read : Ipc → ℕ → Client → Read → S → Processed
  process_read ipc i c (got chunk) d =
      kept_client ipc i c (process_chunk c.buf chunk (session_of c d))
  process_read ipc i c later d = (true, ipc, d, [])
  process_read ipc i c gone d = (false, client_remove ipc i, d, [])

  -- `pf_ipc_process`, which is called for a client that is in use.
  unfoldable pub process : Ipc → ℕ → Read → S → Processed
  unfolding client_remove process_chunk
  process ipc i r d = elim (get_elem? ipc.clients i) [
    | none ↦ (false, ipc, d, [])
    | some c ↦
        if buf_size - length c.buf - 1 == 0
        then (false, client_remove ipc i, d, [])
        else process_read ipc i c r d
  ]
