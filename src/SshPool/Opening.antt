-- ===== src/SshPool/Opening.antt =====
-- What a login of daemon/src/proxy_ssh.c opens, closes and hands on.
use proxiflare.Prelude.{
  ℕ, ◌+◌, ◌≡◌, refl, Bool, true, false, Option, none, some, List, [], ◌∷◌, ◌==◌, arith, Bool-cases,
  inl, inr, length, Bytes,
}
use proxiflare.SshPool.{
  Ssh, Handle, sock, ssh_session, ◌>>=◌, ◌>>◌, ret, ask, acquire, release, Slot, SshProxy,
  connect_loop, tcp_connect, authenticate, give_up, log_in, session_create, user_of,
}
use proxiflare.Prelude.Int.{to_int}
use proxiflare.SshPool.Owned.{
  one, cost, held, Owns, Owns-bind, Owns-ret, Owns-given, Owns-frame, ask-Owns, release-Owns,
  acquire-Owns,
}

module _ (h : Handle) {W : Type 0} (lib : Ssh W) where
  connect_loop-Owns :
      (addrs : List ℕ) → Owns h 0 (λ _. Unit {0}) (cost h sock) (connect_loop lib addrs)
  unfolding connect_loop
  connect_loop-Owns [] = Owns-ret h none tt refl
  connect_loop-Owns (a ∷ addrs) =
      Owns-bind h (acquire-Owns h sock (lib.socket a)) λ o _. got o (connect_loop-Owns addrs)
    where
      up :
          (n : ℕ) (b : Bool)
          → Owns h 0 (λ _. Unit {0}) (cost h sock) (connect_loop lib addrs)
          → Owns h
              (one h (sock n))
              (λ _. Unit {0})
              (cost h sock)
              (elim b [ true ↦ ret (some n) | false ↦ release (sock n) >> connect_loop lib addrs ])
      up n true later = Owns-ret h (some n) tt refl
      up n false later = Owns-bind h (release-Owns h (sock n)) λ _ _. later

      got :
          (o : Option ℕ)
          → Owns h 0 (λ _. Unit {0}) (cost h sock) (connect_loop lib addrs)
          → Owns h
              (cost h sock o)
              (λ _. Unit {0})
              (cost h sock)
              (elim o [
                | none ↦ connect_loop lib addrs
                | some n ↦ ask (lib.connect n a) >>= λ b. elim b [
                  | true ↦ ret (some n)
                  | false ↦ release (sock n) >> connect_loop lib addrs
                ]
              ])
      got none later = later
      got (some n) later =
          Owns-bind h (ask-Owns h (one h (sock n)) (lib.connect n a)) λ b _. up n b later

  tcp_connect-Owns :
      (host : Bytes) (port : ℕ) → Owns h 0 (λ _. Unit {0}) (cost h sock) (tcp_connect lib host port)
  unfolding tcp_connect
  tcp_connect-Owns host port = Owns-bind h (ask-Owns h 0 (lib.getaddrinfo host port)) λ o _. got o
    where
      got :
          (o : Option (List ℕ))
          → Owns h {W = W} 0
              (λ _. Unit {0})
              (cost h sock)
              (elim o [ none ↦ ret none | some addrs ↦ connect_loop lib addrs ])
      got none = Owns-ret h none tt refl
      got (some addrs) = connect_loop-Owns addrs

  -- A session that was made is connected, and that of the proxy.
  abbrev pub IsMade : SshProxy → Option Slot → Type 0
  IsMade p none = Unit
  IsMade p (some s) = (s.connected ≡ true) × (s.proxy_id ≡ to_int p.proxy.id)

  abbrev pub held_opt : Option Slot → ℕ
  held_opt none = 0
  held_opt (some s) = held h s

  authenticate-Owns :
      (n fd : ℕ) (p : SshProxy) → Owns h n (λ _. Unit {0}) (λ _. n) (authenticate lib fd p)
  unfolding authenticate
  authenticate-Owns n fd p = elim (Bool-cases (length p.proxy.password == 0)) [
    | inr y ↦ rw y (ask-Owns h n (lib.userauth_password fd (user_of p.proxy) p.proxy.password))
    | inl e ↦ elim (Bool-cases (length p.ssh_key_path == 0)) [
      | inr y ↦
          rw (e, y) (ask-Owns h n (lib.userauth_publickey fd (user_of p.proxy) p.ssh_key_path))
      | inl e' ↦ rw (e, e') (Owns-ret h false tt refl)
    ]
  ]

  give_up-Owns :
      (p : SshProxy) (n fd : ℕ)
      → Owns h (one h (ssh_session n) + one h (sock fd)) (IsMade p) held_opt (give_up lib n fd)
  unfolding give_up
  give_up-Owns p n fd =
      Owns-bind h (Owns-frame h (one h (sock fd)) (release-Owns h (ssh_session n))) λ _ _.
        Owns-given h (omega arith)
          (Owns-bind h (release-Owns h (sock fd)) λ _ _. Owns-ret h none tt refl)

  log_in-Owns :
      (n fd : ℕ) (p : SshProxy)
      → Owns h (one h (ssh_session n) + one h (sock fd)) (IsMade p) held_opt (log_in lib n fd p)
  unfolding log_in
  log_in-Owns n fd p =
      let both = one h (ssh_session n) + one h (sock fd) in
      Owns-bind h (ask-Owns h both (lib.session_handshake n fd)) λ b _. shaken b
    where
      granted :
          (b : Bool)
          → Owns h {W = W} (one h (ssh_session n) + one h (sock fd)) (IsMade p) held_opt (elim b [
            | false ↦ give_up lib n fd
            | true ↦ ret (
                some (record {
                  session = some n;
                  sock_fd = some fd;
                  proxy_id = to_int p.proxy.id;
                  connected = true;
                }))
          ])
      granted false = give_up-Owns p n fd
      granted true =
          Owns-ret h
            (some (record {
              session = some n;
              sock_fd = some fd;
              proxy_id = to_int p.proxy.id;
              connected = true;
            }))
            (refl, refl) refl

      shaken :
          (b : Bool)
          → Owns h {W = W} (one h (ssh_session n) + one h (sock fd)) (IsMade p) held_opt (elim b [
            | false ↦ give_up lib n fd
            | true ↦ authenticate lib n p >>= λ g. elim g [
              | false ↦ give_up lib n fd
              | true ↦ ret (
                  some (record {
                    session = some n;
                    sock_fd = some fd;
                    proxy_id = to_int p.proxy.id;
                    connected = true;
                  }))
            ]
          ])
      shaken false = give_up-Owns p n fd
      shaken true =
          Owns-bind h (authenticate-Owns (one h (ssh_session n) + one h (sock fd)) n p)
            λ g _. granted g

  pub session_create-Owns : (p : SshProxy) → Owns h 0 (IsMade p) held_opt (session_create lib p)
  unfolding session_create
  session_create-Owns p = Owns-bind h (tcp_connect-Owns p.proxy.host p.proxy.port) λ o _. got o
    where
      begun :
          (fd : ℕ) (o : Option ℕ)
          → Owns h {W = W}
              (cost h ssh_session o + one h (sock fd))
              (IsMade p)
              held_opt
              (elim o [ none ↦ release (sock fd) >> ret none | some n ↦ log_in lib n fd p ])
      begun fd none =
          Owns-given h (omega arith)
            (Owns-bind h (release-Owns h (sock fd)) λ _ _. Owns-ret h none tt refl)
      begun fd (some n) = log_in-Owns n fd p

      got :
          (o : Option ℕ)
          → Owns h {W = W} (cost h sock o) (IsMade p) held_opt (elim o [
            | none ↦ ret none
            | some fd ↦ acquire ssh_session lib.session_init >>= λ o'. elim o' [
              | none ↦ release (sock fd) >> ret none
              | some n ↦ log_in lib n fd p
            ]
          ])
      got none = Owns-ret h none tt refl
      got (some fd) = Owns-given h (omega arith) (
          Owns-bind h (Owns-frame h (one h (sock fd)) (acquire-Owns h ssh_session lib.session_init))
            λ o _. begun fd o)
