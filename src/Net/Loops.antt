-- ===== src/Net/Loops.antt =====
-- `recv_all` and `send_all` do not depend on how the kernel cuts the stream.
use proxiflare.Prelude.{
  ℕ, zero, suc, ◌+◌, ◌-◌, ◌≤◌, ◌<◌, ◌≡◌, ◌≢◌, refl, sym, ap, ◌∙◌, min, false, List, [], ◌∷◌, ◌++◌,
  ◌==◌, if◌then◌else◌, Bytes, length, take, drop, arith, ==_ne, Bool-cases, inl, inr,
  take-append-drop, length-take, length-drop, length-append,
}
use mathlib.Core.List.{append-nil, append_assoc}
use proxiflare.Net.{
  Conn, Res, ok, M, ◌>>=◌, recv_chunk, recv, recv_loop, recv_all, send_loop, send_all,
}

-- The bytes that the peer still delivers before its stream ends.
abbrev pub stream_of : List Bytes → Bytes
stream_of [] = []
stream_of ([] ∷ more) = []
stream_of ((x ∷ xs) ∷ more) = (x ∷ xs) ++ stream_of more

abbrev pub stream : Conn → Bytes
stream c = stream_of c.rx

-- `c'` is `c` after reading `got` of its stream, with `rest` left and nothing sent.
pub record Read (c c' : Conn) (got rest : Bytes) : Type 0 where
  pub was : stream c ≡ got ++ rest
  pub left : stream c' ≡ rest
  pub same_sent : c'.sent ≡ c.sent
  pub same_sends : c'.sends ≡ c.sends

rest_stream :
    (left : Bytes) (more : List Bytes)
    → stream_of (if length left == 0 then more else left ∷ more) ≡ left ++ stream_of more
rest_stream [] more = refl
rest_stream (x ∷ xs) more = rw (nonzero (length xs))
  where
    nonzero : (n : ℕ) → (suc n == 0) ≡ false
    nonzero n = ground arith

-- What one recv() hands over.
record Chunk (n : ℕ) (c : Conn) (r : Res Bytes × Conn) : Type 0 where
  bytes : Bytes
  after : Conn
  result : r ≡ (ok bytes, after)
  some_bytes : 0 < length bytes
  not_more : length bytes ≤ n
  read : Read c after bytes (stream after)

recv_chunk-Chunk :
    (n : ℕ) (c : Conn) (rx : List Bytes)
    → c.rx ≡ rx
    → stream_of rx ≢ []
    → Chunk (suc n) c (recv_chunk (suc n) c rx)
unfolding recv_chunk
recv_chunk-Chunk n c [] e ne = absurd (ne refl)
recv_chunk-Chunk n c ([] ∷ more) e ne = absurd (ne refl)
recv_chunk-Chunk n c ((x ∷ xs) ∷ more) e ne = record {
  bytes = take (suc n) (x ∷ xs);
  after = record c {
    rx = if length (drop (suc n) (x ∷ xs)) == 0 then more else drop (suc n) (x ∷ xs) ∷ more;
  };
  result = refl;
  some_bytes = omega arith;
  not_more = omega (arith, length-take n xs);
  read = record {
    was =
        ap stream_of e
        ∙ ap (λ k. k ++ stream_of more) (sym (take-append-drop (suc n) (x ∷ xs)))
        ∙ append_assoc (take (suc n) (x ∷ xs)) (drop (suc n) (x ∷ xs)) (stream_of more)
        ∙ ap (λ k. take (suc n) (x ∷ xs) ++ k) (sym (rest_stream (drop (suc n) (x ∷ xs)) more));
    left = refl;
    same_sent = refl;
    same_sends = refl;
  };
}

recv-Chunk : (n : ℕ) (c : Conn) → stream c ≢ [] → Chunk (suc n) c (recv (suc n) c)
unfolding recv
recv-Chunk n c ne = recv_chunk-Chunk n c c.rx refl ne

-- Of two prefixes of one list the shorter is a prefix of the longer.
record Split (b s p rest : Bytes) : Type 0 where
  later : Bytes
  whole : p ≡ b ++ later
  left : s ≡ later ++ rest

prefix-Split : (b s p rest : Bytes) → b ++ s ≡ p ++ rest → length b ≤ length p → Split b s p rest
prefix-Split [] s p rest e le = record { later = p; whole = refl; left = e }
prefix-Split (x ∷ b) s [] rest e le = absurd (omega arith)
prefix-Split (x ∷ b) s (y ∷ p) rest e le =
    let t : b ++ s ≡ p ++ rest = cc in
    let h : x ≡ y = cc in
    let w = prefix-Split b s p rest t (omega arith) in
    record { later = w.later; whole = rw (h, w.whole) refl; left = w.left }

-- A read that succeeds with `p`, and leaves `rest`.
pub record Reads (c : Conn) (r : Res Bytes × Conn) (p rest : Bytes) : Type 0 where
  pub after : Conn
  pub result : r ≡ (ok p, after)
  pub read : Read c after p rest

nonempty_append : (p rest : Bytes) (n : ℕ) → length p ≡ suc n → p ++ rest ≢ []
nonempty_append [] rest n e h = absurd (omega arith)
nonempty_append (x ∷ p) rest n e h = cc

pub bind_ok :
    {A B : Type 0} (m : M A) (f : A → M B) {c c' : Conn} {a : A}
    → m c ≡ (ok a, c')
    → (m >>= f) c ≡ f a c'
bind_ok m f e = rw (e, ◌>>=◌) (rw e)

recv_loop-Reads :
    (fuel want : ℕ) (got : Bytes) (c : Conn) (p rest : Bytes)
    → want ≤ fuel
    → length p ≡ want
    → stream c ≡ p ++ rest
    → (c' : Conn) × (recv_loop fuel want got c ≡ (ok (got ++ p), c')) × Read c c' p rest
unfolding recv_loop
recv_loop-Reads fuel zero got c [] rest le e s =
    (c, rw (append-nil got) refl, record { was = s; left = s; same_sent = refl; same_sends = refl })
recv_loop-Reads fuel zero got c (x ∷ p) rest le e s = absurd (omega arith)
recv_loop-Reads zero (suc want) got c p rest le e s = absurd (omega arith)
recv_loop-Reads (suc fuel) (suc want) got c p rest le e s =
    let k = recv-Chunk want c (λ z. nonempty_append p rest want e (sym s ∙ z)) in
    let w =
      prefix-Split k.bytes (stream k.after) p rest (sym k.read.was ∙ s)
        (omega (arith, k.not_more)) in
    let n : length w.later ≡ suc want - length k.bytes =
      omega (arith, ap length w.whole, length-append k.bytes w.later) in
    let (c', r, d) =
      recv_loop-Reads fuel (suc want - length k.bytes) (got ++ k.bytes) k.after w.later rest
        (omega (arith, k.some_bytes)) n w.left in
    (
      c',
      bind_ok (recv (suc want)) (λ b. recv_loop fuel (suc want - length b) (got ++ b)) k.result
          ∙ (r
              ∙ ap (λ b. (ok b, c'))
                  (append_assoc got k.bytes w.later ∙ ap (λ b. got ++ b) (sym w.whole))),
      record {
        was = s;
        left = d.left;
        same_sent = d.same_sent ∙ k.read.same_sent;
        same_sends = d.same_sends ∙ k.read.same_sends;
      },
    )

-- `recv_all` gets the next `n` bytes of the stream, however the kernel cuts it into pieces, and
-- leaves every byte behind them unread.
pub recv_all-Reads :
    (n : ℕ) (c : Conn) (p rest : Bytes)
    → length p ≡ n
    → stream c ≡ p ++ rest
    → Reads c (recv_all n c) p rest
unfolding recv_all
recv_all-Reads n c p rest e s =
    let (c', r, d) = recv_loop-Reads n n [] c p rest (omega arith) e s in
    record { after = c'; result = r; read = d }

-- A loop that sends `buf` and reads nothing.
pub record Sends (c : Conn) (r : Res (Unit {0}) × Conn) (buf : Bytes) : Type 0 where
  pub after : Conn
  pub result : r ≡ (ok tt, after)
  pub sent_is : after.sent ≡ c.sent ++ buf
  pub same_rx : after.rx ≡ c.rx

-- What a failing or a successful send loop has put on the wire.
pub record SentPart (c : Conn) (r : Res (Unit {0}) × Conn) (buf : Bytes) : Type 0 where
  pub part : Bytes
  pub unsent : Bytes
  pub parts : buf ≡ part ++ unsent
  pub sent_is : r.1.sent ≡ c.sent ++ part
  pub all_if_ok : r.0 ≡ ok tt → unsent ≡ []

module _ (accepts : ℕ → ℕ) where
  send_loop-Sends :
      (fuel : ℕ) (buf : Bytes) (c : Conn)
      → ((i : ℕ) → 0 < accepts i)
      → length buf ≤ fuel
      → Sends c (send_loop accepts fuel buf c) buf
  unfolding send_loop
  send_loop-Sends fuel [] c h le = record {
    after = c;
    result = refl;
    sent_is = sym (append-nil c.sent);
    same_rx = refl;
  }
  send_loop-Sends zero (x ∷ xs) c h le = absurd (omega arith)
  send_loop-Sends (suc fuel) (x ∷ xs) c h le =
      let n = min (accepts c.sends) (suc (length xs)) in
      let c1 : Conn = record c { sends = c.sends + 1; sent = c.sent ++ take n (x ∷ xs) } in
      let w =
        send_loop-Sends fuel (drop n (x ∷ xs)) c1 h
          (omega (arith, h c.sends, length-drop n (x ∷ xs))) in
      record {
        after = w.after;
        result = rw (==_ne n 0 (omega (arith, h c.sends))) w.result;
        sent_is =
            w.sent_is
            ∙ append_assoc c.sent (take n (x ∷ xs)) (drop n (x ∷ xs))
            ∙ ap (λ b. c.sent ++ b) (take-append-drop n (x ∷ xs));
        same_rx = w.same_rx;
      }

  send_loop-SentPart :
      (fuel : ℕ) (buf : Bytes) (c : Conn) → SentPart c (send_loop accepts fuel buf c) buf
  unfolding send_loop
  send_loop-SentPart fuel [] c = record {
    part = [];
    unsent = [];
    parts = refl;
    sent_is = sym (append-nil c.sent);
    all_if_ok = λ _. refl;
  }
  send_loop-SentPart zero (x ∷ xs) c = record {
    part = [];
    unsent = x ∷ xs;
    parts = refl;
    sent_is = sym (append-nil c.sent);
    all_if_ok = λ e. cc;
  }
  send_loop-SentPart (suc fuel) (x ∷ xs) c =
      let n = min (accepts c.sends) (suc (length xs)) in
      let c1 : Conn = record c { sends = c.sends + 1; sent = c.sent ++ take n (x ∷ xs) } in
      let w = send_loop-SentPart fuel (drop n (x ∷ xs)) c1 in
      elim (Bool-cases (n == 0)) [
        | inl e ↦ rw e (record {
          part = [];
          unsent = x ∷ xs;
          parts = refl;
          sent_is = sym (append-nil c.sent);
          all_if_ok = λ e. cc;
        })
        | inr e ↦ rw e (record {
          part = take n (x ∷ xs) ++ w.part;
          unsent = w.unsent;
          parts =
              sym (take-append-drop n (x ∷ xs))
              ∙ ap (λ b. take n (x ∷ xs) ++ b) w.parts
              ∙ sym (append_assoc (take n (x ∷ xs)) w.part w.unsent);
          sent_is = w.sent_is ∙ append_assoc c.sent (take n (x ∷ xs)) w.part;
          all_if_ok = w.all_if_ok;
        })
      ]

  -- If no send() fails, `send_all` puts exactly its buffer on the wire, whatever the sizes that
  -- send() takes at a time, and reads nothing.
  pub send_all-Sends :
      (buf : Bytes) (c : Conn) → ((i : ℕ) → 0 < accepts i) → Sends c (send_all accepts buf c) buf
  unfolding send_all
  send_all-Sends buf c h = send_loop-Sends (length buf) buf c h (omega arith)

  -- Whether it fails or not, `send_all` puts a prefix of its buffer on the wire, and the whole of
  -- it if it reports success.
  pub send_all-SentPart : (buf : Bytes) (c : Conn) → SentPart c (send_all accepts buf c) buf
  unfolding send_all
  send_all-SentPart buf c = send_loop-SentPart (length buf) buf c
