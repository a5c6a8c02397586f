-- ===== src/Ipc/Send.antt =====
-- `pf_ipc_send` ends.
use proxiflare.Prelude.{
  ℕ, zero, suc, ◌+◌, ◌*◌, ◌≤◌, ◌<◌, ◌≡◌, ◌≢◌, refl, inl, inr, [], ◌∷◌, ◌++◌, ltb, Bytes, min,
  length, take, drop, length-drop, length-append, Bool-cases, ltb→lt, arith,
}
use proxiflare.Ipc.{Write, wrote, interrupted, would_block, failed, looping, send_loop, send}

-- An attempt that no signal interrupts, and that takes a byte at least if it takes any.
abbrev pub Progresses : Write → Type 0
Progresses (wrote k) = 0 < k
Progresses interrupted = ⊥
Progresses would_block = Unit
Progresses failed = Unit

-- Fifty-one attempts for each byte left, less the retries made.
send_loop-ends :
    (writes : ℕ → Write) (fuel i retries : ℕ) (sent left : Bytes)
    → ((j : ℕ) → Progresses (writes j))
    → retries ≤ 50
    → length left * 51 ≤ fuel + retries
    → send_loop writes fuel i retries sent left ≢ looping
unfolding send_loop
send_loop-ends writes fuel i retries sent [] p r le = λ e. cc
send_loop-ends writes zero i retries sent (x ∷ xs) p r le = absurd (omega arith)
send_loop-ends writes (suc fuel) i retries sent (x ∷ xs) p r le =
    attempt (λ r' sent' left' b l. send_loop-ends writes fuel (i + 1) r' sent' left' p b l)
      (writes i) refl (p i)
  where
    attempt :
        ((r' : ℕ) (sent' left' : Bytes)
          → r' ≤ 50
          → length left' * 51 ≤ fuel + r'
          → send_loop writes fuel (i + 1) r' sent' left' ≢ looping)
        → (w : Write) → writes i ≡ w
        → Progresses w
        → send_loop writes (suc fuel) i retries sent (x ∷ xs) ≢ looping
    attempt more failed e q = rw (send_loop, e) (λ z. cc)
    attempt more interrupted e q = absurd q
    attempt more would_block e q = elim (Bool-cases (ltb retries 50)) [
      | inl t ↦
          rw (send_loop, e, t)
            (more (retries + 1) sent (x ∷ xs) (let lt = ltb→lt retries 50 t in omega arith)
              (omega arith))
      | inr f ↦ rw (send_loop, e, f) (λ z. cc)
    ]
    attempt more (wrote k) e q =
        let n = min k (length (x ∷ xs)) in
        let less : length (drop n (x ∷ xs)) * 51 ≤ fuel + 0 =
          omega (arith, length-drop n (x ∷ xs)) in
        rw (send_loop, e) (more 0 (sent ++ take n (x ∷ xs)) (drop n (x ∷ xs)) (omega arith) less)

-- If no attempt to write is interrupted by a signal, and one that is not refused takes a byte at
-- least, then `pf_ipc_send` ends after at most 51 attempts for each byte of the message and its
-- newline, with the message delivered or given up.
pub send-ends :
    (writes : ℕ → Write) (raw : Bytes)
    → ((j : ℕ) → Progresses (writes j))
    → send writes ((length raw + 1) * 51) raw ≢ looping
unfolding send
send-ends writes raw p =
    send_loop-ends writes ((length raw + 1) * 51) 0 0 [] (raw ++ 10 ∷ []) p (omega arith)
      (omega (arith, length-append raw (10 ∷ [])))
