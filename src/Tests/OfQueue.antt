-- ===== src/Tests/OfQueue.antt =====
-- The ring of capture_queue.c with two messages in it.
use proxiflare.Prelude.{ℕ, ◌≡◌, some, [], ◌∷◌, arith}
use proxiflare.CaptureQueue.{Queue, init, push, drain}
use proxiflare.CaptureQueue.Refine.{Holds, init-Holds, push_refines, drain_refines}
use proxiflare.CaptureWorker.Drained.{Drains, drain_all-Drains}

one_in : Holds (push (init {A = ℕ}) 7).1 (7 ∷ [])
one_in = (push_refines init 7 [] init-Holds).1

abbrev two : Queue ℕ
two = (push (push init 7).1 8).1

two-Holds : Holds two (7 ∷ 8 ∷ [])
two-Holds = (push_refines (push init 7).1 8 (7 ∷ []) one_in).1

push_refines_example : ((push two 9).0 ≡ []) × Holds (push two 9).1 (7 ∷ 8 ∷ 9 ∷ [])
push_refines_example = push_refines two 9 (7 ∷ 8 ∷ []) two-Holds

drain_refines_example : ((drain two 1).0 ≡ some 7 ∷ []) × Holds (drain two 1).1 (8 ∷ [])
drain_refines_example = drain_refines 1 two (7 ∷ 8 ∷ []) two-Holds

drain_all-Drains_example : Drains 9 ((9 ∷ []) ∷ [] ∷ (4 ∷ []) ∷ []) two (7 ∷ 8 ∷ [])
drain_all-Drains_example =
    drain_all-Drains 9 ((9 ∷ []) ∷ [] ∷ (4 ∷ []) ∷ []) two (7 ∷ 8 ∷ []) two-Holds (omega arith)
      (omega arith)
