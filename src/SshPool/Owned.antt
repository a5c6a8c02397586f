-- ===== src/SshPool/Owned.antt =====
-- Accounts of the sockets and sessions of daemon/src/proxy_ssh.c: what a piece of code opens, closes
-- and hands on, for one handle at a time.
use proxiflare.Prelude.{
  ℕ, zero, suc, ◌+◌, ◌≡◌, refl, ap, Bool, false, Option, none, some, List, [], ◌∷◌, ◌==◌, arith,
  get_elem?, set,
}
use proxiflare.Prelude.Counts.{flag, count}
use proxiflare.SshPool.{
  Handle, sock, ssh_session, Event, opened, closed, State, M, ◌>>=◌, ◌>>◌, ret, ask, note, acquire,
  release, release_opt, Slot, session_invalidate,
}

abbrev pub handle_eq : Handle → Handle → Bool
handle_eq (sock a) (sock b) = a == b
handle_eq (ssh_session a) (ssh_session b) = a == b
handle_eq _ _ = false

module _ (h : Handle) where
  abbrev pub opens_it : Event → Bool
  opens_it (opened x) = handle_eq h x
  opens_it (closed x) = false

  abbrev pub closes_it : Event → Bool
  closes_it (opened x) = false
  closes_it (closed x) = handle_eq h x

  -- How often it was opened, and closed.
  abbrev pub opens : List Event → ℕ
  opens = count opens_it

  abbrev pub closes : List Event → ℕ
  closes = count closes_it

  abbrev pub one : Handle → ℕ
  one x = flag (handle_eq h x)

  abbrev pub cost : (ℕ → Handle) → Option ℕ → ℕ
  cost handle none = 0
  cost handle (some n) = one (handle n)

  -- What a slot holds.
  abbrev pub held : Slot → ℕ
  held s = cost ssh_session s.session + cost sock s.sock_fd

  abbrev pub held_all : List Slot → ℕ
  held_all [] = 0
  held_all (s ∷ ss) = held s + held_all ss

  pub held_all-set :
      (ss : List Slot) (k : ℕ) (old s : Slot)
      → get_elem? ss k ≡ some old
      → held_all (set ss k s) + held old ≡ held_all ss + held s
  held_all-set [] k old s e = cc
  held_all-set (x ∷ ss) zero old s e =
      let same : x ≡ old = cc in let n : held x ≡ held old = ap held same in omega arith
  held_all-set (x ∷ ss) (suc k) old s e = omega (arith, held_all-set ss k old s e)

  -- From code that is given `n` handles to hold, `c` of its result are held, and the result has `P`.
  pub record Owns {W A : Type 0} (n : ℕ) (P : A → Type 0) (c : A → ℕ) (m : M W A) : Type 0 where
    pub result : (s : State W) → P (m s).0
    pub account :
        (s : State W)
        → opens (m s).1.log + closes s.log + n ≡ opens s.log + closes (m s).1.log + c (m s).0

  module _ {W : Type 0} where
    pub Owns-bind :
        {A B : Type 0} {n : ℕ} {P : A → Type 0} {c : A → ℕ} {Q : B → Type 0} {c' : B → ℕ}
        {m : M W A} {f : A → M W B}
        → Owns n P c m
        → ((a : A) → P a → Owns (c a) Q c' (f a))
        → Owns n Q c' (m >>= f)
    Owns-bind {m} {f} o k = record {
      result = λ s. (k (m s).0 (o.result s)).result (m s).1;
      account = λ s. omega (arith, o.account s, (k (m s).0 (o.result s)).account (m s).1);
    }

    pub Owns-ret :
        {A : Type 0} {n : ℕ} {P : A → Type 0} {c : A → ℕ} (a : A)
        → P a
        → n ≡ c a
        → Owns {W = W} n P c (ret a)
    Owns-ret a p e = record { result = λ s. p; account = λ s. omega arith }

    pub Owns-given :
        {A : Type 0} {n n' : ℕ} {P : A → Type 0} {c : A → ℕ} {m : M W A}
        → n ≡ n'
        → Owns n P c m
        → Owns n' P c m
    Owns-given e o = record { result = o.result; account = λ s. omega (arith, o.account s) }

    pub Owns-weaken :
        {A : Type 0} {n : ℕ} {P Q : A → Type 0} {c : A → ℕ} {m : M W A}
        → Owns n P c m
        → ((a : A) → P a → Q a)
        → Owns n Q c m
    Owns-weaken {m} o k = record { result = λ s. k (m s).0 (o.result s); account = o.account }

    -- What else is held stays so.
    pub Owns-frame :
        {A : Type 0} {n : ℕ} {P : A → Type 0} {c : A → ℕ} {m : M W A} (k : ℕ)
        → Owns n P c m
        → Owns (n + k) P (λ a. c a + k) m
    Owns-frame k o = record { result = o.result; account = λ s. omega (arith, o.account s) }

    pub ask-Owns : {A : Type 0} (n : ℕ) (f : W → A × W) → Owns n (λ _. Unit {0}) (λ _. n) (ask f)
    unfolding ask
    ask-Owns n f = record { result = λ s. tt; account = λ s. omega arith }

    note_opened : (x : Handle) → Owns {W = W} 0 (λ _. Unit {0}) (λ _. one x) (note (opened x))
    unfolding note
    note_opened x = record { result = λ s. tt; account = λ s. omega arith }

    pub release-Owns : (x : Handle) → Owns {W = W} (one x) (λ _. Unit {0}) (λ _. 0) (release x)
    unfolding release note
    release-Owns x = record { result = λ s. tt; account = λ s. omega arith }

    pub acquire-Owns :
        (handle : ℕ → Handle) (f : W → Option ℕ × W)
        → Owns 0 (λ _. Unit {0}) (cost handle) (acquire handle f)
    unfolding acquire
    acquire-Owns handle f = Owns-bind (ask-Owns 0 f) λ o _. got o
      where
        got :
            (o : Option ℕ)
            → Owns {W = W} 0
                (λ _. Unit {0})
                (cost handle)
                (elim o [ none ↦ ret none | some n ↦ note (opened (handle n)) >> ret (some n) ])
        got none = Owns-ret none tt refl
        got (some n) = Owns-bind (note_opened (handle n)) λ _ _. Owns-ret (some n) tt refl

    pub release_opt-Owns :
        (handle : ℕ → Handle) (o : Option ℕ)
        → Owns {W = W} (cost handle o) (λ _. Unit {0}) (λ _. 0) (release_opt handle o)
    unfolding release_opt
    release_opt-Owns handle none = Owns-ret tt tt refl
    release_opt-Owns handle (some n) = release-Owns (handle n)

    -- An invalidated slot holds nothing.
    pub session_invalidate-Owns :
        (s : Slot)
        → Owns {W = W}
            (held s)
            (λ s'. s' ≡ record s { session = none; sock_fd = none; connected = false })
            (λ _. 0)
            (session_invalidate s)
    unfolding session_invalidate
    session_invalidate-Owns s =
        Owns-bind (Owns-frame (cost sock s.sock_fd) (release_opt-Owns ssh_session s.session)) λ _ _.
          Owns-given (omega arith) (
            Owns-bind (release_opt-Owns sock s.sock_fd) λ _ _.
              Owns-ret (record s { session = none; sock_fd = none; connected = false }) refl refl)
