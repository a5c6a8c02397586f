-- ===== src/Net/Done.antt =====
-- Steps on a socket that succeed: what they return, what they have sent, and what of the stream is
-- left. The rules follow the do blocks of the handshakes.
use proxiflare.Prelude.{ℕ, ◌<◌, ◌≡◌, refl, sym, ap, ◌∙◌, Bool, true, [], ◌++◌, Bytes, length}
use mathlib.Core.List.{append-nil, append_assoc}
use proxiflare.Net.{Conn, ok, M, ◌>>=◌, ◌>>◌, ret, require, recv_all, send_all}
use proxiflare.Net.Loops.{stream, stream_of, bind_ok, recv_all-Reads, send_all-Sends}

pub record Done {A : Type 0} (m : M A) (c : Conn) (a : A) (out rest : Bytes) : Type 0 where
  pub after : Conn
  pub result : m c ≡ (ok a, after)
  pub left : stream after ≡ rest
  pub sent_is : after.sent ≡ c.sent ++ out

pub ret-Done :
    {A : Type 0} (a : A) (c : Conn) (rest : Bytes) → stream c ≡ rest → Done (ret a) c a [] rest
ret-Done a c rest s = record {
  after = c;
  result = refl;
  left = s;
  sent_is = sym (append-nil c.sent);
}

-- A check that passes.
pub require-step :
    {B : Type 0} (b : Bool) (k : M B) (c : Conn) {x : B} {out rest : Bytes}
    → b ≡ true
    → Done k c x out rest
    → Done (require b >> k) c x out rest
require-step b k c e d = record {
  after = d.after;
  result = rw e d.result;
  left = d.left;
  sent_is = d.sent_is;
}

-- A step, and what follows it from whatever socket the step leaves.
pub bind-Done :
    {A B : Type 0} (m : M A) (f : A → M B) (c : Conn) {a : A} {x : B} {o o' r r' : Bytes}
    → Done m c a o r
    → ((c' : Conn) → stream c' ≡ r → Done (f a) c' x o' r')
    → Done (m >>= f) c x (o ++ o') r'
bind-Done m f c {o = o} {o' = o'} d k =
    let e = k d.after d.left in
    record {
      after = e.after;
      result = bind_ok m f d.result ∙ e.result;
      left = e.left;
      sent_is = e.sent_is ∙ ap (λ s. s ++ o') d.sent_is ∙ append_assoc c.sent o o';
    }

pub recv-step :
    {B : Type 0} (n : ℕ) (f : Bytes → M B) (c : Conn) (p rest : Bytes) {x : B} {o r : Bytes}
    → length p ≡ n
    → stream c ≡ p ++ rest
    → ((c' : Conn) → stream c' ≡ rest → Done (f p) c' x o r)
    → Done (recv_all n >>= f) c x o r
recv-step n f c p rest e s k =
    let w = recv_all-Reads n c p rest e s in
    bind-Done (recv_all n) f c
      (record {
        after = w.after;
        result = w.result;
        left = w.read.left;
        sent_is = w.read.same_sent ∙ sym (append-nil c.sent);
      })
      k

pub send-step :
    {B : Type 0} (accepts : ℕ → ℕ) (buf : Bytes) (k : M B) (c : Conn) (rest : Bytes) {x : B}
    {o r : Bytes}
    → ((i : ℕ) → 0 < accepts i)
    → stream c ≡ rest
    → ((c' : Conn) → stream c' ≡ rest → Done k c' x o r)
    → Done (send_all accepts buf >> k) c x (buf ++ o) r
send-step accepts buf k c rest h s then_k =
    let w = send_all-Sends accepts buf c h in
    bind-Done (send_all accepts buf) (λ _. k) c
      (record {
        after = w.after;
        result = w.result;
        left = ap stream_of w.same_rx ∙ s;
        sent_is = w.sent_is;
      })
      then_k

pub Done-out :
    {A : Type 0} (m : M A) (c : Conn) (a : A) {o o' r : Bytes}
    → o ≡ o'
    → Done m c a o r
    → Done m c a o' r
Done-out m c a e d = rw e at d
