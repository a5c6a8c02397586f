-- ===== src/Socks/Open.antt =====
-- The SOCKS5 handshake against a proxy that accepts.
use proxiflare.Prelude.{
  get_or, ℕ, ◌+◌, ◌/◌, ◌%◌, ◌≤◌, ◌<◌, ◌≡◌, ◌≢◌, refl, ap, ◌∙◌, true, not, Option, [], ◌∷◌, ◌++◌,
  ◌==◌, if◌then◌else◌, Bytes, length, arith, length-append,
}
use mathlib.Core.List.{append_assoc, append-nil}
use proxiflare.Net.{Conn, M, recv_all, send_all, require, ret, ◌>>=◌, ◌>>◌}
use proxiflare.Net.Loops.{stream}
use proxiflare.Net.Done.{Done, Done-out, bind-Done, ret-Done, require-step, recv-step, send-step}
use proxiflare.Socks.{
  bound_length, drain_bound, read_reply, authenticate, socks4_handshake, socks5_handshake,
  greeting_message, auth_message, request_message, has_auth, text,
}
use proxiflare.Socks.Wire.{
  Login, anonymous, password, Bound, ip4, ip6, name, Reply, login_bytes, bound_bytes, reply_bytes,
  IsBound, AreValid, Offered, greeting_for, greeting, login_sent, connect_request, socks4_request,
}

bound_atyp : Bound → ℕ
bound_atyp (ip4 b) = 0x01
bound_atyp (ip6 b) = 0x04
bound_atyp (name n port) = 0x03

bound_tail : Bound → Bytes
bound_tail (ip4 b) = b
bound_tail (ip6 b) = b
bound_tail (name n port) = length n ∷ (n ++ port)

abbrev drain_rest : ℕ → M (Unit {0})
drain_rest n = recv_all (n + 2) >>= λ _. ret tt

drain-Done :
    (b : Bound) (rest : Bytes) (c : Conn)
    → IsBound b
    → stream c ≡ bound_tail b ++ rest
    → Done (drain_bound (bound_atyp b)) c tt [] rest
unfolding drain_bound bound_atyp bound_tail
drain-Done (ip4 b) rest c h s =
    bind-Done (bound_length 0x01) drain_rest c (ret-Done 4 c _ s)
      λ c1 s1. recv-step 6 (λ _. ret tt) c1 b rest h s1 λ c2 s2. ret-Done tt c2 rest s2
drain-Done (ip6 b) rest c h s =
    bind-Done (bound_length 0x04) drain_rest c (ret-Done 16 c _ s)
      λ c1 s1. recv-step 18 (λ _. ret tt) c1 b rest h s1 λ c2 s2. ret-Done tt c2 rest s2
drain-Done (name n port) rest c h s =
    bind-Done (bound_length 0x03) drain_rest c
      (recv-step 1 (λ d. ret (get_or d 0 0)) c (length n ∷ []) ((n ++ port) ++ rest) refl s
        λ c1 s1. ret-Done (length n) c1 _ s1)
      λ c2 s2.
        recv-step (length n + 2) (λ _. ret tt) c2 (n ++ port) rest
          (length-append n port ∙ omega (arith, h.1)) s2 λ c3 s3. ret-Done tt c3 rest s3

bound_parts :
    (b : Bound) (rest : Bytes) → bound_bytes b ++ rest ≡ bound_atyp b ∷ (bound_tail b ++ rest)
unfolding bound_atyp bound_tail
bound_parts (ip4 b) rest = refl
bound_parts (ip6 b) rest = refl
bound_parts (name n port) rest = refl

reply-Done :
    (version reserved : ℕ) (b : Bound) (rest : Bytes) (c : Conn)
    → IsBound b
    → stream c ≡ version ∷ 0x00 ∷ reserved ∷ (bound_bytes b ++ rest)
    → Done read_reply c tt [] rest
unfolding read_reply
reply-Done version reserved b rest c h s =
    recv-step 4 (λ resp. require (get_or resp 1 0 == 0x00) >> drain_bound (get_or resp 3 0)) c
      (version ∷ 0x00 ∷ reserved ∷ bound_atyp b ∷ []) (bound_tail b ++ rest) refl
      (s ∙ ap (λ k. version ∷ 0x00 ∷ reserved ∷ k) (bound_parts b rest))
      λ c1 s1. require-step true (drain_bound (bound_atyp b)) c1 refl (drain-Done b rest c1 h s1)

module _ (accepts : ℕ → ℕ) (sends : (i : ℕ) → 0 < accepts i) where
  -- The credentials, where the proxy asks for them.
  login_rest : Login → Bytes
  login_rest anonymous = []
  login_rest (password v) = v ∷ 0x00 ∷ []

  method_of : Login → ℕ
  method_of anonymous = 0x00
  method_of (password v) = 0x02

  plain_login :
      (user : Option Bytes) (pass : Option Bytes) (rest : Bytes) (c : Conn)
      → stream c ≡ rest
      → Done (authenticate accepts 0x00 user pass) c tt [] rest
  unfolding authenticate
  plain_login user pass rest c s = ret-Done tt c rest s

  user_auth : (user : Option Bytes) → text user ≢ [] → has_auth user ≡ true
  user_auth user n = nonempty (text user) n
    where
      nonempty : (u : Bytes) → u ≢ [] → not (length u == 0) ≡ true
      nonempty [] n = absurd (n refl)
      nonempty (x ∷ u) n = ground arith

  empty_or : (b : Bytes) → (if length b == 0 then [] else b) ≡ b
  empty_or [] = refl
  empty_or (x ∷ b) = ground arith

  auth_message_lem :
      (user pass : Option Bytes) (v : ℕ)
      → AreValid user pass
      → text user ≢ []
      → auth_message user pass ≡ login_sent user pass (password v)
  unfolding auth_message
  auth_message_lem user pass v h ne =
      let auth = user_auth user ne in
      let nn : length (text user) % 256 ≡ length (text user) = omega arith in
      let mm : length (text pass) % 256 ≡ length (text pass) = omega arith in
      rw (auth, nn, mm, empty_or (text pass)) refl

  user_login :
      (user pass : Option Bytes) (v : ℕ) (rest : Bytes) (c : Conn)
      → AreValid user pass
      → text user ≢ []
      → stream c ≡ v ∷ 0x00 ∷ rest
      → Done (authenticate accepts 0x02 user pass) c tt (login_sent user pass (password v)) rest
  unfolding authenticate
  user_login user pass v rest c h ne s =
      require-step (has_auth user)
        (send_all accepts (auth_message user pass)
          >> (recv_all 2 >>= λ resp. require (get_or resp 1 0 == 0x00)))
        c (user_auth user ne)
        (Done-out _ c tt (append-nil (auth_message user pass) ∙ auth_message_lem user pass v h ne) (
          send-step accepts (auth_message user pass)
            (recv_all 2 >>= λ resp. require (get_or resp 1 0 == 0x00)) c (v ∷ 0x00 ∷ rest) sends s
            λ c1 s1.
              recv-step 2 (λ resp. require (get_or resp 1 0 == 0x00)) c1 (v ∷ 0x00 ∷ []) rest refl
                s1 λ c2 s2. ret-Done tt c2 rest s2))

  login-Done :
      (user pass : Option Bytes) (l : Login) (rest : Bytes) (c : Conn)
      → AreValid user pass
      → Offered user l
      → stream c ≡ login_rest l ++ rest
      → Done (authenticate accepts (method_of l) user pass) c tt (login_sent user pass l) rest
  unfolding login_rest method_of
  login-Done user pass anonymous rest c h o s = plain_login user pass rest c s
  login-Done user pass (password v) rest c h o s = user_login user pass v rest c h o s

  greeting_message_lem : (user : Option Bytes) → greeting_message user ≡ greeting user
  unfolding greeting_message
  greeting_message_lem user = by_text (text user)
    where
      by_text :
          (u : Bytes)
          → 0x05 ∷ (if not (length u == 0) then 0x02 ∷ 0x00 ∷ 0x02 ∷ [] else 0x01 ∷ 0x00 ∷ [])
            ≡ greeting_for u
      by_text [] = refl
      by_text (x ∷ u) = ground arith

  request_message_lem :
      (host : Bytes) (port : ℕ)
      → length host ≤ 255
      → port ≤ 65535
      → request_message host port ≡ connect_request host port
  unfolding request_message
  request_message_lem host port h p =
      let n : length host % 256 ≡ length host = omega arith in
      let hi : port / 256 % 256 ≡ port / 256 = omega arith in rw (n, hi) refl

  login_split : (l : Login) → login_bytes l ≡ 0x05 ∷ method_of l ∷ login_rest l
  unfolding login_rest method_of
  login_split anonymous = refl
  login_split (password v) = refl

  not_refused : (l : Login) → not (method_of l == 0xFF) ≡ true
  unfolding method_of
  not_refused anonymous = refl
  not_refused (password v) = refl

  -- What follows the proxy's choice of a method.
  abbrev after_choice : Option Bytes → Option Bytes → Bytes → ℕ → Bytes → M (Unit {0})
  after_choice user pass host port chosen =
      require (get_or chosen 0 0 == 0x05)
      >> (require (not (get_or chosen 1 0 == 0xFF))
          >> (authenticate accepts (get_or chosen 1 0) user pass
              >> (send_all accepts (request_message host port) >> read_reply)))

  -- The last part: the request, and the reply.
  request-Done :
      (host : Bytes) (port : ℕ) (r : Reply) (rest : Bytes) (c : Conn)
      → length host ≤ 255
      → port ≤ 65535
      → IsBound r.bound
      → stream c ≡ r.version ∷ 0x00 ∷ r.reserved ∷ (bound_bytes r.bound ++ rest)
      → Done
          (send_all accepts (request_message host port) >> read_reply)
          c
          tt
          (connect_request host port)
          rest
  request-Done host port r rest c h p b s =
      Done-out _ c tt (append-nil (request_message host port) ∙ request_message_lem host port h p) (
        send-step accepts (request_message host port) read_reply c _ sends s
          λ c1 s1. reply-Done r.version r.reserved r.bound rest c1 b s1)

  -- Against a proxy that grants the connection, with or without a password, the SOCKS5 handshake
  -- succeeds. It sends exactly the greeting, the credentials if they are asked for and the request of
  -- RFC 1928 and RFC 1929, and it reads exactly the proxy's replies: every byte behind the bound
  -- address is left for the tunnel. How the kernel cuts the two streams does not matter.
  pub socks5_handshake-Done :
      (user pass : Option Bytes) (host : Bytes) (port : ℕ) (r : Reply) (rest : Bytes) (c : Conn)
      → AreValid user pass
      → Offered user r.login
      → length host ≤ 255
      → port ≤ 65535
      → IsBound r.bound
      → stream c ≡ reply_bytes r ++ rest
      → Done
          (socks5_handshake accepts host port user pass)
          c
          tt
          (greeting user ++ (login_sent user pass r.login ++ connect_request host port))
          rest
  unfolding socks5_handshake
  socks5_handshake-Done user pass host port r rest c v o h p b s =
      let m = method_of r.login in
      let tail = r.version ∷ 0x00 ∷ r.reserved ∷ (bound_bytes r.bound ++ rest) in
      let whole : stream c ≡ (0x05 ∷ m ∷ []) ++ (login_rest r.login ++ tail) =
        s
        ∙ ap (λ l. (l ++ (r.version ∷ 0x00 ∷ r.reserved ∷ bound_bytes r.bound)) ++ rest)
            (login_split r.login)
        ∙ ap (λ t. 0x05 ∷ m ∷ t)
            (append_assoc (login_rest r.login) (r.version ∷ 0x00 ∷ r.reserved ∷ bound_bytes r.bound)
              rest) in
      Done-out _ c tt
        (ap (λ g. g ++ (login_sent user pass r.login ++ connect_request host port))
          (greeting_message_lem user))
        (send-step accepts (greeting_message user) _ c _ sends whole λ c1 s1.
          recv-step 2 (after_choice user pass host port) c1 (0x05 ∷ m ∷ [])
            (login_rest r.login ++ tail) refl s1
            λ c2 s2. require-step (not (m == 0xFF)) _ c2 (not_refused r.login) (
              bind-Done (authenticate accepts m user pass)
                (λ _. send_all accepts (request_message host port) >> read_reply) c2
                (login-Done user pass r.login tail c2 v o s2)
                λ c3 s3. request-Done host port r rest c3 h p b s3))

  -- Against a SOCKS4a proxy that grants the connection the handshake sends exactly the request, with
  -- the host name behind the user id, and reads exactly the eight bytes of the reply.
  pub socks4_handshake-Done :
      (host : Bytes) (port : ℕ) (userid : Option Bytes) (version : ℕ) (address rest : Bytes)
      (c : Conn)
      → port ≤ 65535
      → length address ≡ 6
      → stream c ≡ version ∷ 0x5A ∷ (address ++ rest)
      → Done (socks4_handshake accepts host port userid) c tt (socks4_request host port userid) rest
  unfolding socks4_handshake
  socks4_handshake-Done host port userid version address rest c p n s =
      let hi : port / 256 % 256 ≡ port / 256 = omega arith in
      rw hi (
        Done-out _ c tt (append-nil (socks4_request host port userid)) (
          send-step accepts (socks4_request host port userid) _ c _ sends s λ c1 s1.
            recv-step 8 (λ resp. require (get_or resp 1 0 == 0x5A)) c1 (version ∷ 0x5A ∷ address)
              rest (omega arith) s1 λ c2 s2. ret-Done tt c2 rest s2))
