-- ===== src/CaptureWorker.antt =====
-- daemon/src/capture_worker.c: how the worker empties the ring after a wake-up. The producers run at
-- the same time: `arrivals` holds, for each round of the loop, what they push before its drain. The
-- thread's start and stop and the wait on the eventfd are not modelled.
pub mod Drained
use proxiflare.Prelude.{ℕ, zero, suc, Option, none, some, List, [], ◌∷◌, ◌++◌}
use mathlib.Core.Option
use proxiflare.CaptureQueue.{Queue, push, drain}

-- DRAIN_BATCH
abbrev pub drain_batch : ℕ
drain_batch = 64

module _ {ℓ} {A : Type ℓ} where
  abbrev pub first : List (List A) → List A
  first [] = []
  first (xs ∷ _) = xs

  abbrev pub later : List (List A) → List (List A)
  later [] = []
  later (_ ∷ xss) = xss

  unfoldable pub push_all : Queue A → List A → Queue A
  push_all q [] = q
  push_all q (x ∷ xs) = push_all (push q x).1 xs

  -- `for (;;)` on fuel: what the callback gets in order, the arrivals that are still to come, and
  -- the ring; `none` if the rounds do not suffice.
  unfoldable pub drain_all :
      ℕ → List (List A) → Queue A → Option (List (Option A) × List (List A) × Queue A)
  unfolding push_all
  drain_all zero arrivals q = none
  drain_all (suc fuel) arrivals q =
      let (got, q') = drain (push_all q (first arrivals)) drain_batch in
      elim got [
        | [] ↦ some ([], later arrivals, q')
        | x ∷ xs ↦
            Option.map (λ r. ((x ∷ xs) ++ r.0, r.1, r.2)) (drain_all fuel (later arrivals) q')
      ]
