-- ===== src/Inspect/Capture.antt =====
-- What `on_inspect_data` puts into the capture queue.
use proxiflare.Prelude.{
  ℕ, ◌<◌, ◌≡◌, ◌≢◌, ◌⊎◌, ◌↔◌, refl, ap, inl, inr, Bool, true, some, List, [], ◌∷◌, map, Bytes,
  Bool-cases, length, take, ltb, ◌==◌, ltb→lt, lt→ltb, arith,
}
use proxiflare.CaptureQueue.{Queue}
use proxiflare.CaptureQueue.Refine.{Holds, enqueue, push_refines}
use proxiflare.Tproxy.{Connection}
use proxiflare.Inspect.Trackers.{IsTracked, domain_is_tracker_iff}
use proxiflare.Inspect.{CaptureMsg, is_noise, message_of, on_inspect_data}

-- Fewer than four bytes, or a tracker's.
abbrev pub IsNoise : Bytes → Connection → Type 0
IsNoise payload conn = (length payload < 4) ⊎ IsTracked conn.domain

-- The message for a chunk, under the name `name`.
abbrev pub captured : ℕ → Bytes → Bool → Connection → Bytes → CaptureMsg
captured now payload is_request conn name = record {
  payload = payload;
  is_request = is_request;
  is_tls = conn.is_tls;
  dst_port = conn.dst_port;
  conn_id = conn.client_fd;
  ts_sec = now;
  domain = take 255 name;
  dst_ip = take 45 conn.dst_ip;
}

-- The connection's domain, or its address where it has none.
abbrev pub Names : Connection → Bytes → Type 0
Names conn name =
    ((conn.domain ≡ []) × (name ≡ conn.dst_ip)) ⊎ ((conn.domain ≢ []) × (name ≡ conn.domain))

IsNoise-iff :
    (payload : Bytes) (conn : Connection) → (is_noise payload conn ≡ true) ↔ IsNoise payload conn
IsNoise-iff payload conn = (
  λ e. elim (Bool-cases (ltb (length payload) 4)) [
    | inl y ↦ inl (ltb→lt (length payload) 4 y)
    | inr n ↦ inr ((domain_is_tracker_iff conn.domain).0 (rw n at e))
  ],
  λ a. elim a [
    | inl lt ↦ rw (lt→ltb (length payload) 4 lt) refl
    | inr t ↦ elim (Bool-cases (ltb (length payload) 4)) [
      | inl y ↦ rw y refl
      | inr n ↦ rw n ((domain_is_tracker_iff conn.domain).1 t)
    ]
  ],
)

message_of-captured :
    (now : ℕ) (payload : Bytes) (is_request : Bool) (conn : Connection)
    → (name : Bytes) × Names conn name
      × (message_of now payload is_request conn ≡ captured now payload is_request conn name)
message_of-captured now payload is_request conn = elim (Bool-cases (length conn.domain == 0)) [
  | inl e ↦ (conn.dst_ip, inl (empty conn.domain e, refl), rw e refl)
  | inr n ↦ (conn.domain, inr ((λ z. (let q = ap length z in ground arith)), refl), rw n refl)
]
  where
    empty : (s : Bytes) → (length s == 0) ≡ true → s ≡ []
    empty [] e = refl
    empty (c ∷ s) e = absurd (ground arith)

-- If the ring holds a queue of messages, a chunk of fewer than four bytes, or of a connection to a
-- tracker's domain or one below it, leaves the ring as it is and frees nothing. Any other chunk is
-- put behind the others, whole, with its connection, and with its connection's domain, or address
-- where that is empty, and the oldest message of a full queue is freed for it.
pub on_inspect_data_refines :
    (now : ℕ) (q : Queue CaptureMsg) (xs : List CaptureMsg) (payload : Bytes) (is_request : Bool)
    (conn : Connection)
    → Holds q xs
    → (IsNoise payload conn × (on_inspect_data now q payload is_request conn ≡ ([], q)))
      ⊎ ((¬ IsNoise payload conn)
          × ((name : Bytes) × Names conn name
              × (let msg = captured now payload is_request conn name in
                  ((on_inspect_data now q payload is_request conn).0 ≡ map some (enqueue xs msg).0)
                  × Holds (on_inspect_data now q payload is_request conn).1 (enqueue xs msg).1)))
unfolding on_inspect_data
on_inspect_data_refines now q xs payload is_request conn h =
    elim (Bool-cases (is_noise payload conn)) [
      | inl e ↦ inl ((IsNoise-iff payload conn).0 e, rw (on_inspect_data, e) refl)
      | inr e ↦
          let (name, named, same) = message_of-captured now payload is_request conn in
          let r = push_refines q (captured now payload is_request conn name) xs h in
          inr (
            (λ noise. (let y = (IsNoise-iff payload conn).1 noise in cc)),
            (name, named, rw (on_inspect_data, e, same) r),
          )
    ]
