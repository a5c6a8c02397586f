-- ===== src/Ipc/Framing.antt =====
-- The requests of a client do not depend on how the kernel cuts its stream.
use proxiflare.Prelude.{
  ℕ, zero, suc, ◌+◌, ◌-◌, ◌≤◌, ◌<◌, ◌≡◌, refl, sym, ap, ◌∙◌, inl, inr, false, List, [], ◌∷◌, ◌++◌,
  Bytes, length, take-all, length-append, contains_byte, split_at-append, split_at-none,
  contains_byte-cases, arith,
}
use mathlib.Core.Path.{subst}
use mathlib.Core.List.{append_assoc}
use proxiflare.Ipc.{buf_size}
use proxiflare.Ipc.Protocol.{Service, Session, serve, lines_loop, process_lines, process_chunk}

append-nil : (xs : Bytes) → xs ++ [] ≡ xs
append-nil [] = refl
append-nil (x ∷ xs) = ap (◌∷◌ x) (append-nil xs)

module _ {J S : Type 0} (service : Service J S) where
  -- Enough rounds are given: any number from the length on does the same.
  loop-none :
      (n : ℕ) (a : Bytes) (s : Session service)
      → contains_byte 10 a ≡ false
      → lines_loop service n a s ≡ (s, a)
  unfolding lines_loop
  loop-none zero a s h = refl
  loop-none (suc n) a s h = rw (lines_loop, split_at-none 10 a h) refl

  loop-line :
      (n : ℕ) (l rest : Bytes) (s : Session service)
      → contains_byte 10 l ≡ false
      → lines_loop service (suc n) (l ++ 10 ∷ rest) s
        ≡ lines_loop service n rest (serve service l s)
  unfolding lines_loop
  loop-line n l rest s h =
      let cut = split_at-append 10 l rest h in rw (lines_loop, cut) (rw cut refl)

  -- The line and its newline are behind.
  shorter : (n : ℕ) (l rest a : Bytes) → a ≡ l ++ 10 ∷ rest → length a ≤ suc n → length rest ≤ n
  shorter n l rest a e le =
      let total : length a ≡ length l + length (10 ∷ rest) =
        ap length e ∙ length-append l (10 ∷ rest) in
      omega arith

  no_room : (l rest a : Bytes) → a ≡ l ++ 10 ∷ rest → ¬ (length a ≤ 0)
  no_room l rest a e le =
      let total : length a ≡ length l + length (10 ∷ rest) =
        ap length e ∙ length-append l (10 ∷ rest) in
      omega arith

  loop-fuel :
      (n m : ℕ) (a : Bytes) (s : Session service)
      → length a ≤ n
      → length a ≤ m
      → lines_loop service n a s ≡ lines_loop service m a s
  loop-fuel zero m a s ln lm = elim (contains_byte-cases 10 a) [
    | inl h ↦ loop-none zero a s h ∙ sym (loop-none m a s h)
    | inr (l, rest, e, h) ↦ absurd (no_room l rest a e ln)
  ]
  loop-fuel (suc n) zero a s ln lm = elim (contains_byte-cases 10 a) [
    | inl h ↦ loop-none (suc n) a s h ∙ sym (loop-none zero a s h)
    | inr (l, rest, e, h) ↦ absurd (no_room l rest a e lm)
  ]
  loop-fuel (suc n) (suc m) a s ln lm = elim (contains_byte-cases 10 a) [
    | inl h ↦ loop-none (suc n) a s h ∙ sym (loop-none (suc m) a s h)
    | inr (l, rest, e, h) ↦ rw e (
        loop-line n l rest s h
        ∙ loop-fuel n m rest (serve service l s) (shorter n l rest a e ln) (shorter m l rest a e lm)
        ∙ sym (loop-line m l rest s h))
  ]

  -- With enough rounds, what is read later comes to what is left.
  loop-append :
      (n m k : ℕ) (a b : Bytes) (s : Session service)
      → length a ≤ n
      → length (a ++ b) ≤ m
      → length (a ++ b) ≤ k
      → lines_loop service m (a ++ b) s
        ≡ lines_loop service k ((lines_loop service n a s).1 ++ b) (lines_loop service n a s).0
  loop-append zero m k a b s ln lm lk = elim (contains_byte-cases 10 a) [
    | inl h ↦ rw (loop-none zero a s h) (loop-fuel m k (a ++ b) s lm lk)
    | inr (l, rest, e, h) ↦ absurd (no_room l rest a e ln)
  ]
  loop-append (suc n) zero k a b s ln lm lk = elim (contains_byte-cases 10 a) [
    | inl h ↦ rw (loop-none (suc n) a s h) (loop-fuel zero k (a ++ b) s lm lk)
    | inr (l, rest, e, h) ↦ absurd (no_room l rest a e (omega (arith, length-append a b)))
  ]
  loop-append (suc n) (suc m) k a b s ln lm lk = elim (contains_byte-cases 10 a) [
    | inl h ↦ rw (loop-none (suc n) a s h) (loop-fuel (suc m) k (a ++ b) s lm lk)
    | inr (l, rest, e, h) ↦
        let joined : a ++ b ≡ l ++ 10 ∷ (rest ++ b) =
          ap (λ t. t ++ b) e ∙ append_assoc l (10 ∷ rest) b in
        let short : length (rest ++ b) ≤ m = shorter m l (rest ++ b) (a ++ b) joined lm in
        let fits : length (rest ++ b) ≤ k = shorter k l (rest ++ b) (a ++ b) joined (omega arith) in
        rw (joined, loop-line m l (rest ++ b) s h, e, loop-line n l rest s h)
          (loop-append n m k rest b (serve service l s) (shorter n l rest a e ln) short fits)
  ]

  pub loop-left :
      (n : ℕ) (a : Bytes) (s : Session service)
      → length a ≤ n
      → (contains_byte 10 (lines_loop service n a s).1 ≡ false)
        × (length (lines_loop service n a s).1 ≤ length a)
  loop-left zero a s ln = elim (contains_byte-cases 10 a) [
    | inl h ↦ rw (loop-none zero a s h) (h, omega arith)
    | inr (l, rest, e, h) ↦ absurd (no_room l rest a e ln)
  ]
  loop-left (suc n) a s ln = elim (contains_byte-cases 10 a) [
    | inl h ↦ rw (loop-none (suc n) a s h) (h, omega arith)
    | inr (l, rest, e, h) ↦
        let (free, le) = loop-left n rest (serve service l s) (shorter n l rest a e ln) in
        let total : length a ≡ length l + length (10 ∷ rest) =
          ap length e ∙ length-append l (10 ∷ rest) in
        let small : length rest ≤ length a = omega arith in
        subst
          (λ t.
            (contains_byte 10 (lines_loop service (suc n) t s).1 ≡ false)
            × (length (lines_loop service (suc n) t s).1 ≤ length a))
          (sym e) (rw (loop-line n l rest s h) (free, omega arith))
  ]

  -- The reads of one client, one after the other: what is left in its buffer, and the session.
  abbrev pub feed : List Bytes → Bytes → Session service → Session service × Bytes
  feed [] buf s = (s, buf)
  feed (chunk ∷ chunks) buf s =
      let (s', left) = process_chunk service buf chunk s in feed chunks left s'

  -- Each read fits behind what is left of those before it.
  abbrev pub Fits : List Bytes → Bytes → Session service → Type 0
  Fits [] buf s = Unit
  Fits (chunk ∷ chunks) buf s =
      (length buf + length chunk < buf_size)
      × Fits chunks (process_lines service (buf ++ chunk) s).1
          (process_lines service (buf ++ chunk) s).0

  abbrev pub concat : List Bytes → Bytes
  concat [] = []
  concat (chunk ∷ chunks) = chunk ++ concat chunks

  process_chunk-fits :
      (buf chunk : Bytes) (s : Session service)
      → length buf + length chunk < buf_size
      → process_chunk service buf chunk s ≡ process_lines service (buf ++ chunk) s
  unfolding process_chunk
  process_chunk-fits buf chunk s lt =
      rw (process_chunk, take-all (buf_size - length buf - 1) chunk (omega arith)) refl

  process_lines-append :
      (a b : Bytes) (s : Session service)
      → process_lines service (a ++ b) s
        ≡ process_lines service ((process_lines service a s).1 ++ b) (process_lines service a s).0
  unfolding process_lines
  process_lines-append a b s =
      let (free, le) = loop-left (length a) a s (omega arith) in
      let r = (lines_loop service (length a) a s).1 in
      loop-append (length a) (length (a ++ b)) (length (a ++ b)) a b s (omega arith) (omega arith)
        (omega arith)
      ∙ loop-fuel (length (a ++ b)) (length (r ++ b)) (r ++ b) (lines_loop service (length a) a s).0
          (omega (arith, length-append r b, length-append a b)) (omega arith)

  feed_lem :
      (chunks : List Bytes) (buf : Bytes) (s : Session service)
      → contains_byte 10 buf ≡ false
      → Fits chunks buf s
      → feed chunks buf s ≡ process_lines service (buf ++ concat chunks) s
  unfolding process_lines
  feed_lem [] buf s h f = rw (append-nil buf) (sym (loop-none (length buf) buf s h))
  feed_lem (chunk ∷ chunks) buf s h (lt, f) =
      let r = process_lines service (buf ++ chunk) s in
      rw (process_chunk-fits buf chunk s lt) (
        feed_lem chunks r.1 r.0 (loop-left _ (buf ++ chunk) s (omega arith)).0 f
        ∙ sym (process_lines-append (buf ++ chunk) (concat chunks) s)
        ∙ ap (λ t. process_lines service t s) (append_assoc buf chunk (concat chunks)))

  -- The bytes of some lines, and of the beginning of another.
  abbrev pub stream : List Bytes → Bytes → Bytes
  stream [] tail = tail
  stream (l ∷ ls) tail = l ++ 10 ∷ stream ls tail

  abbrev pub AreLines : List Bytes → Type 0
  AreLines [] = Unit
  AreLines (l ∷ ls) = (contains_byte 10 l ≡ false) × AreLines ls

  abbrev pub serve_all : List Bytes → Session service → Session service
  serve_all [] s = s
  serve_all (l ∷ ls) s = serve_all ls (serve service l s)

  loop-stream :
      (ls : List Bytes) (n : ℕ) (tail : Bytes) (s : Session service)
      → AreLines ls
      → contains_byte 10 tail ≡ false
      → length (stream ls tail) ≤ n
      → lines_loop service n (stream ls tail) s ≡ (serve_all ls s, tail)
  loop-stream [] n tail s a h le = loop-none n tail s h
  loop-stream (l ∷ ls) zero tail s a h le = absurd (no_room l (stream ls tail) _ refl le)
  loop-stream (l ∷ ls) (suc n) tail s (a, more) h le =
      loop-line n l (stream ls tail) s a
      ∙ loop-stream ls n tail (serve service l s) more h (shorter n l (stream ls tail) _ refl le)

  -- However the kernel cuts the stream of a client's lines, each line is served once, whole and in
  -- order, and the unfinished line at the end is what the buffer holds, provided that each read fits
  -- in the buffer behind what is left there.
  pub feed-stream :
      (ls chunks : List Bytes) (tail : Bytes) (s : Session service)
      → AreLines ls
      → contains_byte 10 tail ≡ false
      → concat chunks ≡ stream ls tail
      → Fits chunks [] s
      → feed chunks [] s ≡ (serve_all ls s, tail)
  unfolding process_lines contains_byte
  feed-stream ls chunks tail s a h e f =
      feed_lem chunks [] s refl f
      ∙ loop-fuel (length (concat chunks)) (length (stream ls tail)) (concat chunks) s (omega arith)
          (let n : length (concat chunks) ≡ length (stream ls tail) = ap length e in omega arith)
      ∙ ap (λ t. lines_loop service (length (stream ls tail)) t s) e
      ∙ loop-stream ls (length (stream ls tail)) tail s a h (omega arith)
