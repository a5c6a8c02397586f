-- ===== src/Log.antt =====
-- daemon/src/main.c: the ring of the last 2000 log entries, and the answer to "log.recent". The writes
-- of an event are one step: several threads make them without a lock, and the model is that of runs
-- in which no two of them overlap. A sequence number passes through a double, which is exact below
-- 2^53; `since_seq` is the `int` that was asked for.
pub mod Refine
use proxiflare.Prelude.{
  ℕ, zero, suc, ◌+◌, ◌-◌, ◌%◌, ◌^◌, Bool, true, Option, none, some, List, [], ◌∷◌, ltb,
  if◌then◌else◌, Bytes, get_or, set, replicate,
}
use proxiflare.Prelude.Int.{ℤ, pos, negsuc}

-- The fields of an entry that vary; `ts` is the clock's, the byte counts and the latency are 0.
pub record Event : Type 0 where
  pub app : Bytes
  pub rule : Bytes
  pub proxy : Bytes
  pub proxy_id : ℕ
  pub domain : Bytes
  pub dst_ip : Bytes
  pub dst_port : ℕ
  pub action : Bytes
  pub success : Bool

-- An entry of the ring carries its sequence number.
pub record Entry : Type 0 where
  pub seq : ℕ
  pub event : Event

-- PF_LOG_RING_SIZE
abbrev pub ring_size : ℕ
ring_size = 2000

-- g_log_ring, g_log_ring_head, g_log_ring_count and g_log_seq. A NULL slot is `none`.
pub record Log : Type 0 where
  pub ring : List (Option Entry)
  pub head : ℕ
  pub count : ℕ
  pub log_seq : ℕ

unfoldable pub empty_log : Log
empty_log = record { ring = replicate ring_size none; head = 0; count = 0; log_seq = 0 }

-- The copy of `event` gets the next number and the slot at the head.
unfoldable pub log_event : Log → Event → Log
log_event log event =
    let seq = (log.log_seq + 1) % 2 ^ 64 in
    record {
      ring = set log.ring log.head (some (record { seq = seq; event = event }));
      head = (log.head + 1) % ring_size;
      count = if ltb log.count ring_size then log.count + 1 else log.count;
      log_seq = seq;
    }

-- `if (g_log_ring[idx])` and `seq > since_seq`
abbrev pub is_newer : ℤ → ℕ → Bool
is_newer (pos since) seq = ltb since seq
is_newer (negsuc since) seq = true

abbrev pub newer_or : ℤ → Option Entry → List Entry → List Entry
newer_or since none rest = rest
newer_or since (some e) rest = if is_newer since e.seq then e ∷ rest else rest

-- The loop at index `i`, with the rounds left first. The head is added before the count is
-- subtracted, since the sum is never negative.
unfoldable pub recent_loop : ℕ → ℕ → Log → ℤ → List Entry
recent_loop zero i log since = []
recent_loop (suc rounds) i log since =
    newer_or since (get_or log.ring ((log.head + i + ring_size - log.count) % ring_size) none)
      (recent_loop rounds (i + 1) log since)

unfoldable pub recent : Log → ℤ → List Entry
unfolding recent_loop
recent log since = recent_loop log.count 0 log since
