-- ===== src/CaptureQueue.antt =====
-- daemon/src/capture_queue.c: the bounded ring between the relay threads and the capture worker.
-- Each function holds the mutex throughout, so it is one step on the queue. Messages are pointers
-- of any type `A`; NULL is `none`. What a call frees is a part of its result. The eventfd is a wake
-- signal of the kernel's and holds no message, so it is left out.
pub mod Refine
use proxiflare.Prelude.{
  ℕ, zero, suc, ◌+◌, ◌-◌, ◌%◌, ◌^◌, Option, none, some, List, [], ◌∷◌, Bool, true, false, arith,
  ◌==◌, leb, if◌then◌else◌, get_or, set, replicate,
}

-- PF_CAPTURE_QUEUE_SIZE, 1U << 12; `& PF_CAPTURE_QUEUE_MASK` is `% queue_size`.
abbrev pub queue_size : ℕ
queue_size = 4096

pub record Queue {ℓ} (A : Type ℓ) : Type ℓ where
  pub head : ℕ
  pub tail : ℕ
  pub slots : List (Option A)
  pub dropped : ℕ
  pub enqueued : ℕ

-- uint32_t and uint64_t arithmetic.
abbrev pub add32 : ℕ → ℕ → ℕ
add32 a b = (a + b) % 2 ^ 32

abbrev pub sub32 : ℕ → ℕ → ℕ
sub32 a b = (a + 2 ^ 32 - b) % 2 ^ 32

abbrev pub add64 : ℕ → ℕ → ℕ
add64 a b = (a + b) % 2 ^ 64

module _ {ℓ} {A : Type ℓ} where
  -- `memset` of the whole structure.
  pub init : Queue A
  init = record { head = 0; tail = 0; slots = replicate queue_size none; dropped = 0; enqueued = 0 }

  -- Takes out the oldest slot: the pointer, and the queue with NULL there and `tail` moved on.
  abbrev pub take_tail : Queue A → Option A × Queue A
  take_tail q = (
    get_or q.slots (q.tail % queue_size) none,
    record q { slots = set q.slots (q.tail % queue_size) none; tail = add32 q.tail 1 },
  )

  abbrev pub put_head : Queue A → A → Queue A
  put_head q msg = record q {
    slots = set q.slots (q.head % queue_size) (some msg);
    head = add32 q.head 1;
    enqueued = add64 q.enqueued 1;
  }

  -- The first result is what is freed.
  pub push : Queue A → A → List (Option A) × Queue A
  push q msg =
      if leb queue_size (sub32 q.head q.tail)
      then (let (old, q') = take_tail q in
          (old ∷ [], put_head (record q' { dropped = add64 q'.dropped 1 }) msg))
      else ([], put_head q msg)

  -- `max` counts the rounds left, `max - got` of the source.
  pub drain : Queue A → ℕ → List (Option A) × Queue A
  drain q zero = ([], q)
  drain q (suc max) =
      let (old, q') = take_tail q in
      let (out, q'') = drain q' max in if q.tail == q.head then ([], q) else (old ∷ out, q'')

  -- The loop of `pf_capture_queue_close` on fuel; what it frees, in order.
  pub close_loop : ℕ → Queue A → List (Option A) × Queue A
  close_loop zero q = ([], q)
  close_loop (suc fuel) q =
      let (old, q') = take_tail q in
      let (freed, q'') = close_loop fuel q' in
      if q.tail == q.head then ([], q) else (old ∷ freed, q'')

  -- A ring holds `queue_size` messages at most.
  pub close : Queue A → List (Option A) × Queue A
  close q = close_loop queue_size q
