-- ===== src/CaptureWorker/Drained.antt =====
-- The worker's loop ends, and every message reaches the callback once and in order.
use proxiflare.Prelude.{
  ℕ, zero, suc, ◌+◌, ◌≤◌, ◌<◌, ◌≡◌, ◌≢◌, refl, sym, ap, ◌∙◌, false, some, List, [], ◌∷◌, ◌++◌, leb,
  length, length-append, length-drop, take, drop, take-append-drop, map, arith,
}
use mathlib.Core.List.{append_assoc, append-nil, map-append}
use proxiflare.CaptureQueue.{Queue, queue_size, push, drain}
use proxiflare.CaptureQueue.Refine.{Holds, push_refines, drain_refines}
use proxiflare.CaptureWorker.{drain_batch, first, later, push_all, drain_all}

module _ {ℓ} {A : Type ℓ} where
  -- What arrives, in order.
  abbrev pub all_of : List (List A) → List A
  all_of [] = []
  all_of (xs ∷ xss) = xs ++ all_of xss

  first-later : (xss : List (List A)) → first xss ++ all_of (later xss) ≡ all_of xss
  first-later [] = refl
  first-later (xs ∷ xss) = refl

  push_all-Holds :
      (q : Queue A) (xs ys : List A)
      → Holds q xs
      → length xs + length ys ≤ queue_size
      → Holds (push_all q ys) (xs ++ ys)
  unfolding push_all
  push_all-Holds q xs [] h le = rw (append-nil xs) h
  push_all-Holds q xs (y ∷ ys) h le =
      let room : leb queue_size (length xs) ≡ false = ground arith in
      let (freed, held) = push_refines q y xs h in
      let held' : Holds (push q y).1 (xs ++ y ∷ []) = rw room at held in
      rw (← append_assoc xs (y ∷ []) ys) (
        push_all-Holds (push q y).1 (xs ++ y ∷ []) ys held'
          (omega (arith, length-append xs (y ∷ []))))

  -- How the loop ends: what the callback got and what is still to come are all that was there or
  -- arrives, in order, and the ring is empty.
  pub record Drains (fuel : ℕ) (arrivals : List (List A)) (q : Queue A) (xs : List A) : Type ℓ where
    pub out : List A
    pub left : List (List A)
    pub ring : Queue A
    pub result : drain_all fuel arrivals q ≡ some (map some out, left, ring)
    pub all_served : out ++ all_of left ≡ xs ++ all_of arrivals
    pub ring_empty : Holds ring []

  -- One round that finds the messages `ys` in the ring.
  drain_round :
      (fuel : ℕ) (arrivals : List (List A)) (q : Queue A) (xs ys : List A)
      → ys ≡ xs ++ first arrivals
      → Holds (push_all q (first arrivals)) ys
      → ((q' : Queue A)
          → Holds q' (drop drain_batch ys)
          → ys ≢ []
          → Drains fuel (later arrivals) q' (drop drain_batch ys))
      → Drains (suc fuel) arrivals q xs
  unfolding drain_all
  drain_round fuel arrivals q xs [] e h more =
      let (got, held) = drain_refines drain_batch (push_all q (first arrivals)) [] h in
      record {
        out = [];
        left = later arrivals;
        ring = (drain (push_all q (first arrivals)) drain_batch).1;
        result = rw (got, drain_all) refl;
        all_served =
            ap (λ l. l ++ all_of (later arrivals)) e
            ∙ append_assoc xs (first arrivals) (all_of (later arrivals))
            ∙ ap (◌++◌ xs) (first-later arrivals);
        ring_empty = held;
      }
  drain_round fuel arrivals q xs (y ∷ ys) e h more =
      let (got, held) = drain_refines drain_batch (push_all q (first arrivals)) (y ∷ ys) h in
      let q' = (drain (push_all q (first arrivals)) drain_batch).1 in
      let rest = more q' held (λ z. cc) in
      record {
        out = take drain_batch (y ∷ ys) ++ rest.out;
        left = rest.left;
        ring = rest.ring;
        result =
            rw (got, drain_all, rest.result)
              (ap (λ l. some (some y ∷ l, rest.left, rest.ring))
                (sym (map-append some (take 63 ys) rest.out)));
        all_served =
            append_assoc (take drain_batch (y ∷ ys)) rest.out (all_of rest.left)
            ∙ ap (◌++◌ (take drain_batch (y ∷ ys))) rest.all_served
            ∙ sym (
                append_assoc (take drain_batch (y ∷ ys)) (drop drain_batch (y ∷ ys))
                  (all_of (later arrivals)))
            ∙ ap (λ l. l ++ all_of (later arrivals)) (take-append-drop drain_batch (y ∷ ys) ∙ e)
            ∙ append_assoc xs (first arrivals) (all_of (later arrivals))
            ∙ ap (◌++◌ xs) (first-later arrivals);
        ring_empty = rest.ring_empty;
      }

  -- If what the ring holds and what arrives while the worker empties it fit the ring together, the
  -- worker's loop ends within a round for each message and one more; the ring is then empty, the
  -- callback has got messages each once and in order, and what it has not got is still to arrive.
  pub drain_all-Drains :
      (fuel : ℕ) (arrivals : List (List A)) (q : Queue A) (xs : List A)
      → Holds q xs
      → length xs + length (all_of arrivals) ≤ queue_size
      → length xs + length (all_of arrivals) < fuel
      → Drains fuel arrivals q xs
  drain_all-Drains zero arrivals q xs h le lt = absurd (omega arith)
  drain_all-Drains (suc fuel) arrivals q xs h le lt =
      let split : length (first arrivals) + length (all_of (later arrivals))
          ≡ length (all_of arrivals) =
        sym (length-append (first arrivals) (all_of (later arrivals)))
        ∙ ap length (first-later arrivals) in
      let ys = xs ++ first arrivals in
      let n = length-append xs (first arrivals) in
      let d = length-drop drain_batch ys in
      drain_round fuel arrivals q xs ys refl (push_all-Holds q xs (first arrivals) h (omega arith))
        (λ q' h' ne.
          let some_left = nonempty ys ne in
          drain_all-Drains fuel (later arrivals) q' (drop drain_batch ys) h' (omega arith)
            (omega arith))
    where
      nonempty : (zs : List A) → zs ≢ [] → 0 < length zs
      nonempty [] ne = absurd (ne refl)
      nonempty (z ∷ zs) ne = omega arith
