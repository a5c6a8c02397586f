-- ===== src/CaptureQueue/Refine.antt =====
-- The ring holds a queue of at most 4096 messages that drops its oldest when it is full.
use proxiflare.Prelude.{
  ℕ, zero, suc, ◌+◌, ◌-◌, ◌%◌, ◌^◌, ◌≤◌, ◌<◌, ◌≡◌, refl, sym, ap, ◌∙◌, Option, none, some, List, [],
  ◌∷◌, ◌++◌, true, false, arith, ◌==◌, leb, if◌then◌else◌, get_or, set, length, take, drop, map,
  length-set, length-replicate, get_or-set_self, get_or-set_ne, length-append, Bool-cases, inl, inr,
  ==_iff, ==_ne,
}
use mathlib.Core.Path.{ap₂}
use proxiflare.CaptureQueue.{
  Queue, queue_size, add32, sub32, take_tail, put_head, init, push, drain, close_loop, close,
}

module _ {ℓ} {A : Type ℓ} where
  -- From index `t` on, going round, the slots hold `xs`.
  abbrev pub Window : List (Option A) → ℕ → List A → Type ℓ
  Window s t [] = Unit
  Window s t (x ∷ xs) = (get_or s (t % queue_size) none ≡ some x) × Window s (t + 1) xs

  -- The ring holds the messages `xs`, the oldest first.
  pub record Holds (q : Queue A) (xs : List A) : Type ℓ where
    pub slots_size : length q.slots ≡ queue_size
    pub tail_fits : q.tail < 2 ^ 32
    pub head_is : q.head ≡ (q.tail + length xs) % 2 ^ 32
    pub bounded : length xs ≤ queue_size
    pub window : Window q.slots q.tail xs

  Window-move :
      (s : List (Option A)) (xs : List A) (t t' : ℕ)
      → t % queue_size ≡ t' % queue_size
      → Window s t xs
      → Window s t' xs
  Window-move s [] t t' e w = w
  Window-move s (x ∷ xs) t t' e w =
      (rw (sym e) w.0, Window-move s xs (t + 1) (t' + 1) (omega arith) w.1)

  -- A write `n` places on, behind the window, is not seen in it.
  Window-set :
      (s : List (Option A)) (xs : List A) (v : Option A) (t n i : ℕ)
      → length xs ≤ n
      → n < queue_size
      → i ≡ (t + n) % queue_size
      → Window s t xs
      → Window (set s i v) t xs
  Window-set s [] v t n i le lt e w = w
  Window-set s (x ∷ xs) v t n i le lt e w = (
    get_or-set_ne s i (t % queue_size) v none (omega arith) ∙ w.0,
    Window-set s xs v (t + 1) (n - 1) i (omega arith) (omega arith)
        (e ∙ ap (λ k. k % queue_size) (omega arith)) w.1,
  )

  Window-concat :
      (s : List (Option A)) (xs : List A) (x : A) (t : ℕ)
      → Window s t xs
      → get_or s ((t + length xs) % queue_size) none ≡ some x
      → Window s t (xs ++ x ∷ [])
  Window-concat s [] x t w e = (ap (λ k. get_or s k none) (omega arith) ∙ e, tt)
  Window-concat s (y ∷ xs) x t w e = (
    w.0,
    Window-concat s xs x (t + 1) w.1 (ap (λ k. get_or s (k % queue_size) none) (omega arith) ∙ e),
  )

  pub init-Holds : Holds init []
  unfolding init
  init-Holds = record {
    slots_size = length-replicate {A = Option A} queue_size none;
    tail_fits = omega arith;
    head_is = omega arith;
    bounded = omega arith;
    window = tt;
  }

  take_tail-Holds :
      (q : Queue A) (x : A) (xs : List A)
      → Holds q (x ∷ xs)
      → ((take_tail q).0 ≡ some x) × Holds (take_tail q).1 xs
  take_tail-Holds q x xs h = (
    h.window.0,
    record {
      slots_size = length-set q.slots (q.tail % queue_size) none ∙ h.slots_size;
      tail_fits = omega arith;
      head_is = omega (arith, h.head_is);
      bounded = omega (arith, h.bounded);
      window = Window-move _ xs (q.tail + 1) (add32 q.tail 1) (omega arith) (
          Window-set q.slots xs none (q.tail + 1) 4095 (q.tail % queue_size)
            (omega (arith, h.bounded)) (omega arith) (omega arith) h.window.1);
    },
  )

  put_head-Holds :
      (q : Queue A) (x : A) (xs : List A)
      → Holds q xs
      → length xs < queue_size
      → Holds (put_head q x) (xs ++ x ∷ [])
  put_head-Holds q x xs h lt =
      let at : q.head % queue_size ≡ (q.tail + length xs) % queue_size = omega (arith, h.head_is) in
      record {
        slots_size = length-set q.slots (q.head % queue_size) (some x) ∙ h.slots_size;
        tail_fits = h.tail_fits;
        head_is = omega (arith, h.head_is, length-append xs (x ∷ []));
        bounded = omega (arith, length-append xs (x ∷ []));
        window =
            Window-concat _ xs x q.tail
              (Window-set q.slots xs (some x) q.tail (length xs) (q.head % queue_size) (omega arith)
                lt at h.window)
              (rw (← at) (
                get_or-set_self q.slots (q.head % queue_size) (some x) none
                  (omega (arith, h.slots_size))));
      }

  used : (q : Queue A) (xs : List A) → Holds q xs → sub32 q.head q.tail ≡ length xs
  used q xs h = omega (arith, h.head_is, h.tail_fits, h.bounded)

  -- What a bounded queue that drops its oldest does on an insertion: what it drops, and what it
  -- holds then.
  abbrev pub enqueue : List A → A → List A × List A
  enqueue xs x =
      if leb queue_size (length xs) then (take 1 xs, drop 1 xs ++ x ∷ []) else ([], xs ++ x ∷ [])

  push-room :
      (q : Queue A) (x : A) (xs : List A)
      → Holds q xs
      → leb queue_size (length xs) ≡ false
      → push q x ≡ ([], put_head q x)
  unfolding push
  push-room q x xs h e = rw (used q xs h, e)

  push-full :
      (q : Queue A) (x : A) (xs : List A)
      → Holds q xs
      → leb queue_size (length xs) ≡ true
      → push q x ≡ (
        (take_tail q).0 ∷ [],
        put_head (record (take_tail q).1 { dropped = (q.dropped + 1) % 2 ^ 64 }) x,
      )
  unfolding push
  push-full q x xs h e = rw (used q xs h, e)

  -- `pf_capture_queue_push` always takes the message. In a ring of fewer than 4096 messages it goes
  -- behind the others and nothing is freed; in a full ring the oldest is freed and makes room.
  pub push_refines :
      (q : Queue A) (x : A) (xs : List A)
      → Holds q xs
      → ((push q x).0 ≡ map some (enqueue xs x).0) × Holds (push q x).1 (enqueue xs x).1
  push_refines q x [] h = rw (push-room q x [] h refl) (refl, put_head-Holds q x [] h (omega arith))
  push_refines q x (y ∷ ys) h = elim (Bool-cases (leb queue_size (length (y ∷ ys)))) [
    | inr e ↦
        rw (push-room q x (y ∷ ys) h e, e) (refl, put_head-Holds q x (y ∷ ys) h (ground arith))
    | inl e ↦
        let (old, held) = take_tail-Holds q y ys h in
        rw (push-full q x (y ∷ ys) h e, e)
          (
            ap (λ k. k ∷ []) old,
            put_head-Holds (record (take_tail q).1 { dropped = (q.dropped + 1) % 2 ^ 64 }) x ys
                (record {
                  slots_size = held.slots_size;
                  tail_fits = held.tail_fits;
                  head_is = held.head_is;
                  bounded = held.bounded;
                  window = held.window;
                })
                (omega (arith, h.bounded)),
          )
  ]

  empty_test : (q : Queue A) (x : A) (xs : List A) → Holds q (x ∷ xs) → (q.tail == q.head) ≡ false
  empty_test q x xs h = ==_ne q.tail q.head (omega (arith, h.head_is, h.tail_fits, h.bounded))

  none_left : (q : Queue A) → Holds q [] → (q.tail == q.head) ≡ true
  none_left q h = (==_iff q.tail q.head).1 (omega (arith, h.head_is, h.tail_fits))

  -- `pf_capture_queue_drain` hands out the oldest `max` messages in order, none of them NULL, and
  -- leaves exactly the others; if there are fewer it hands out those, and does not wait for more.
  pub drain_refines :
      (max : ℕ) (q : Queue A) (xs : List A)
      → Holds q xs
      → ((drain q max).0 ≡ map some (take max xs)) × Holds (drain q max).1 (drop max xs)
  unfolding drain
  drain_refines zero q xs h = (refl, h)
  drain_refines (suc max) q [] h = rw (none_left q h) (refl, h)
  drain_refines (suc max) q (x ∷ xs) h =
      let (old, held) = take_tail-Holds q x xs h in
      let (out, left) = drain_refines max (take_tail q).1 xs held in
      rw (empty_test q x xs h) (ap₂ ◌∷◌ old out, left)

  close_loop_refines :
      (fuel : ℕ) (q : Queue A) (xs : List A)
      → Holds q xs
      → length xs ≤ fuel
      → ((close_loop fuel q).0 ≡ map some xs) × Holds (close_loop fuel q).1 []
  unfolding close_loop
  close_loop_refines zero q [] h le = (refl, h)
  close_loop_refines zero q (x ∷ xs) h le = absurd (omega arith)
  close_loop_refines (suc fuel) q [] h le = rw (none_left q h) (refl, h)
  close_loop_refines (suc fuel) q (x ∷ xs) h le =
      let (old, held) = take_tail-Holds q x xs h in
      let (out, left) = close_loop_refines fuel (take_tail q).1 xs held (omega arith) in
      rw (empty_test q x xs h) (ap₂ ◌∷◌ old out, left)

  -- `pf_capture_queue_close` frees every message that is left, each once, and ends with an empty
  -- ring.
  pub close_refines :
      (q : Queue A) (xs : List A) → Holds q xs → ((close q).0 ≡ map some xs) × Holds (close q).1 []
  unfolding close
  close_refines q xs h = close_loop_refines queue_size q xs h h.bounded

  -- Both counters: every push is accepted and counted, and the dropped ones are exactly those that
  -- met a full ring.
  pub push_counts :
      (q : Queue A) (x : A) (xs : List A)
      → Holds q xs
      → ((push q x).1.enqueued ≡ (q.enqueued + 1) % 2 ^ 64)
        × ((push q x).1.dropped
            ≡ (if leb queue_size (length xs) then (q.dropped + 1) % 2 ^ 64 else q.dropped))
  push_counts q x xs h = elim (Bool-cases (leb queue_size (length xs))) [
    | inr e ↦ rw (push-room q x xs h e, e) (refl, refl)
    | inl e ↦ rw (push-full q x xs h e, e) (refl, refl)
  ]
