-- ===== src/Net.antt =====
-- A connected TCP socket as the handshakes of chain.c and proxy_socks.c use it, with their
-- `send_all` and `recv_all` loops. What send() and recv() do is the kernel's choice: `accepts i` is
-- how many bytes the i-th send() takes at most (0 is an error), and `rx` the chunks that recv()
-- finds, where an empty chunk or the end of the list is an error or the end of the stream.
pub mod Loops
pub mod Done
use proxiflare.Prelude.{
  ℕ, zero, suc, ◌+◌, ◌-◌, min, Bool, true, false, List, [], ◌∷◌, ◌++◌, ◌==◌, if◌then◌else◌, Bytes,
  length, take, drop, arith,
}

pub record Conn : Type 0 where
  pub rx : List Bytes
  pub sends : ℕ
  pub sent : Bytes

pub data Res {ℓ} (A : Type ℓ) : Type ℓ where
  ok : A → Res A
  fail : Res A

-- A step on a socket that may fail (`return -1`).
abbrev pub M : Type 0 → Type 0
M A = Conn → Res A × Conn

infixl 5 ◌>>=◌ ◌>>◌
abbrev pub ◌>>=◌ : {A B : Type 0} → M A → (A → M B) → M B
◌>>=◌ m f c = let (r, c') = m c in elim r [ ok a ↦ f a c' | fail ↦ (fail, c') ]

abbrev pub ◌>>◌ : {B : Type 0} → M (Unit {0}) → M B → M B
m >> k = m >>= λ _. k

abbrev pub ret : {A : Type 0} → A → M A
ret a c = (ok a, c)

abbrev pub abort : {A : Type 0} → M A
abort c = (fail, c)

-- `if (!b) return -1;`
abbrev pub require : Bool → M (Unit {0})
require b c = if b then (ok tt, c) else (fail, c)

unfoldable pub recv_chunk : ℕ → Conn → List Bytes → Res Bytes × Conn
recv_chunk n c [] = (fail, c)
recv_chunk n c ([] ∷ more) = (fail, record c { rx = more })
recv_chunk n c ((x ∷ xs) ∷ more) = (
  ok (take n (x ∷ xs)),
  record c { rx = if length (drop n (x ∷ xs)) == 0 then more else drop n (x ∷ xs) ∷ more },
)

-- recv(fd, buf, n): at most `n` bytes of what has arrived.
unfoldable pub recv : ℕ → M Bytes
unfolding recv_chunk
recv n c = recv_chunk n c c.rx

-- `recv_all`: the rounds left, the bytes wanted and those got. A round gets a byte at least.
unfoldable pub recv_loop : ℕ → ℕ → Bytes → M Bytes
unfolding recv
recv_loop fuel zero got c = (ok got, c)
recv_loop zero (suc want) got c = (fail, c)
recv_loop (suc fuel) (suc want) got c =
    (recv (suc want) >>= λ b. recv_loop fuel (suc want - length b) (got ++ b)) c

unfoldable pub recv_all : ℕ → M Bytes
unfolding recv_loop
recv_all n = recv_loop n n []

module _ (accepts : ℕ → ℕ) where
  -- `send_all`: the rounds left, and the bytes that are not sent yet.
  unfoldable pub send_loop : ℕ → Bytes → M (Unit {0})
  send_loop fuel [] c = (ok tt, c)
  send_loop zero (x ∷ xs) c = (fail, c)
  send_loop (suc fuel) (x ∷ xs) c =
      let n = min (accepts c.sends) (suc (length xs)) in
      let rest =
        send_loop fuel (drop n (x ∷ xs))
          (record c { sends = c.sends + 1; sent = c.sent ++ take n (x ∷ xs) }) in
      if n == 0 then (fail, record c { sends = c.sends + 1 }) else rest

  unfoldable pub send_all : Bytes → M (Unit {0})
  unfolding send_loop
  send_all buf = send_loop (length buf) buf
