-- ===== src/Tproxy/Pump.antt =====
-- One direction of the relay: what is written of what was read.
use proxiflare.Prelude.{
  ℕ, zero, suc, ◌+◌, ◌≤◌, ◌≡◌, ◌⊎◌, inl, inr, refl, sym, ap, ◌∙◌, min, true, [], ◌∷◌, ◌++◌, ◌==◌,
  Bytes, length, take, drop, Bool-cases, arith, length-drop, take-append-drop,
}
use mathlib.Core.List.{append_assoc}
use proxiflare.Tproxy.Relay.{
  Write, wrote, retry, fatal, chunk, Flow, flushed, stalled, cut, write_loop, write_all,
  after_write, pump,
}

module _ (writes : ℕ → Write) where
  -- What was written is a prefix, and what lacks after an end that is no error was not taken by an
  -- attempt that is to be retried.
  abbrev pub Kept : Bytes → Flow → Bytes → Type 0
  Kept rest flushed out = rest ≡ []
  Kept rest stalled out = (i : ℕ) × (writes i ≡ retry)
  Kept rest cut out = Unit

  abbrev Ends : Bytes → Flow × Bytes → Type 0
  Ends got (flow, out) = (rest : Bytes) × (got ≡ out ++ rest) × Kept rest flow out

  Ends-more :
      (piece rest : Bytes) (r : Flow × Bytes)
      → Ends rest r
      → Ends (piece ++ rest) (r.0, piece ++ r.1)
  Ends-more piece rest (flow, out) (left, e, k) =
      (left, ap (λ t. piece ++ t) e ∙ sym (append_assoc piece out left), kept flow k)
    where
      kept : (f : Flow) → Kept left f out → Kept left f (piece ++ out)
      kept flushed k = k
      kept stalled k = k
      kept cut k = k

  write_loop-Ends :
      (fuel i : ℕ) (got : Bytes) → length got ≤ fuel → Ends got (write_loop writes fuel i got)
  unfolding write_loop
  write_loop-Ends zero i [] le = ([], refl, refl)
  write_loop-Ends (suc fuel) i [] le = ([], refl, refl)
  write_loop-Ends zero i (x ∷ xs) le = absurd (omega arith)
  write_loop-Ends (suc fuel) i (x ∷ xs) le =
      attempt (λ rest h. write_loop-Ends fuel (i + 1) rest h) (writes i) refl
    where
      attempt :
          ((rest : Bytes) → length rest ≤ fuel → Ends rest (write_loop writes fuel (i + 1) rest))
          → (w : Write) → writes i ≡ w
          → Ends (x ∷ xs) (write_loop writes (suc fuel) i (x ∷ xs))
      attempt more fatal e = rw (write_loop, e) (x ∷ xs, refl, tt)
      attempt more retry e = rw (write_loop, e) (x ∷ xs, refl, (i, e))
      attempt more (wrote k) e = elim (Bool-cases (min k (length (x ∷ xs)) == 0)) [
        | inl z ↦ rw (write_loop, e, z) (x ∷ xs, refl, tt)
        | inr z ↦
            let n = min k (length (x ∷ xs)) in
            let pos : 1 ≤ min k (length (x ∷ xs)) = ground arith in
            let less : length (drop n (x ∷ xs)) ≤ fuel = omega (arith, length-drop n (x ∷ xs)) in
            rw (write_loop, e, z)
              (rw (take-append-drop n (x ∷ xs)) at
                (Ends-more (take n (x ∷ xs)) (drop n (x ∷ xs)) _ (more (drop n (x ∷ xs)) less)))
      ]

  -- As long as the relay goes on after reading a chunk, it counts the whole chunk, and it has
  -- written a prefix of it: all of it, unless an attempt to write found the peer's buffer full. The
  -- rest is then in no buffer of the connection.
  pub pump_prefix :
      (b : ℕ) (got : Bytes)
      → (pump writes (chunk b got)).alive ≡ true
      → ((pump writes (chunk b got)).counted ≡ b ∷ got)
        × ((rest : Bytes) × (b ∷ got ≡ (pump writes (chunk b got)).written ++ rest)
            × ((rest ≡ []) ⊎ ((i : ℕ) × (writes i ≡ retry))))
  unfolding pump write_all
  pump_prefix b got h = outcome _ (write_loop-Ends (length (b ∷ got)) 0 (b ∷ got) (omega arith)) h
    where
      outcome :
          (r : Flow × Bytes)
          → Ends (b ∷ got) r
          → (after_write (b ∷ got) r).alive ≡ true
          → ((after_write (b ∷ got) r).counted ≡ b ∷ got)
            × ((rest : Bytes) × (b ∷ got ≡ (after_write (b ∷ got) r).written ++ rest)
                × ((rest ≡ []) ⊎ ((i : ℕ) × (writes i ≡ retry))))
      outcome (flushed, out) (rest, e, k) h = (refl, (rest, e, inl k))
      outcome (stalled, out) (rest, e, k) h = (refl, (rest, e, inr k))
      outcome (cut, out) (rest, e, k) h = cc
