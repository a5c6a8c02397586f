-- ===== src/Ipc/Clients.antt =====
-- The table of clients: its counter, over any sequence of the operations.
use proxiflare.Prelude.{
  ℕ, zero, suc, ◌+◌, ◌-◌, ◌<◌, ◌≡◌, refl, sym, ap, ◌∙◌, inl, inr, true, false, Option, none, some,
  List, [], ◌∷◌, map, ◌==◌, leb, length, get_elem?, set, replicate, length-set, length-replicate,
  length-append, length-take, take, ◌++◌, Bool-cases, Option-cases, arith, Bytes,
}
use proxiflare.Prelude.Counts.{flag, count, count-set, count-replicate}
use proxiflare.Ipc.Framing.{loop-left}
use proxiflare.Ipc.{
  Client, Ipc, max_clients, buf_size, free_client, init, is_used, free_from, Peer, uid_refused,
  new_client, accept, client_remove, without_fd, close,
}
use proxiflare.Ipc.Protocol.{
  Service, Read, got, later, gone, process, process_read, process_chunk, process_lines, kept_client,
  Session, session_of,
}

-- Every buffer has room for a byte more.
abbrev pub AllShort : List Client → Type 0
AllShort [] = Unit
AllShort (c ∷ cs) = (length c.buf < buf_size) × AllShort cs

-- The table has its size, its counter is the number of clients, and no buffer is full.
pub record IsOrderly (ipc : Ipc) : Type 0 where
  pub size : length ipc.clients ≡ max_clients
  pub counted : ipc.client_count ≡ count is_used ipc.clients
  pub short : AllShort ipc.clients

AllShort-set :
    (cs : List Client) (i : ℕ) (c : Client)
    → length c.buf < buf_size
    → AllShort cs
    → AllShort (set cs i c)
AllShort-set [] i c lt a = tt
AllShort-set (x ∷ cs) zero c lt (b, a) = (lt, a)
AllShort-set (x ∷ cs) (suc i) c lt (b, a) = (b, AllShort-set cs i c lt a)

AllShort-get :
    (cs : List Client) (i : ℕ) (c : Client)
    → AllShort cs
    → get_elem? cs i ≡ some c
    → length c.buf < buf_size
AllShort-get [] i c a e = cc
AllShort-get (x ∷ cs) zero c (b, a) e = let same : x ≡ c = cc in rw (← same) b
AllShort-get (x ∷ cs) (suc i) c (b, a) e = AllShort-get cs i c a e

free_from-slot :
    (cs : List Client) (i j : ℕ)
    → free_from i cs ≡ some j
    → (c : Client) × (k : ℕ) × (j ≡ i + k) × (get_elem? cs k ≡ some c) × (is_used c ≡ false)
unfolding free_from
free_from-slot [] i j e = cc
free_from-slot (c ∷ cs) i j e = elim (Bool-cases (is_used c)) [
  | inr f ↦
      let h : some i ≡ some j = (rw f at e) in
      let same : i ≡ j = cc in (c, 0, sym same ∙ omega arith, refl, f)
  | inl t ↦
      let (d, k, s, g, f) = free_from-slot cs (i + 1) j (rw t at e) in
      (d, suc k, s ∙ omega arith, g, f)
]

init-IsOrderly : IsOrderly init
unfolding init
init-IsOrderly = record {
  size = length-replicate max_clients free_client;
  counted = sym (count-replicate is_used max_clients free_client refl);
  short = all_free max_clients;
}
  where
    all_free : (n : ℕ) → AllShort (replicate n free_client)
    all_free zero = tt
    all_free (suc n) = (omega arith, all_free n)

entered-IsOrderly :
    (ipc : Ipc) (i cfd : ℕ)
    → IsOrderly ipc
    → free_from 0 ipc.clients ≡ some i
    → IsOrderly (record {
      clients = set ipc.clients i (new_client cfd);
      client_count = ipc.client_count + 1;
    })
entered-IsOrderly ipc i cfd h e =
    let (d, k, s, g, f) = free_from-slot ipc.clients 0 i e in
    let at : i ≡ k = omega (arith, s) in
    rw at (record {
      size = length-set ipc.clients k (new_client cfd) ∙ h.size;
      counted =
          let off : flag (is_used d) ≡ 0 = ap flag f in
          omega (arith, h.counted, count-set is_used ipc.clients k d (new_client cfd) g);
      short = AllShort-set ipc.clients k (new_client cfd) (omega arith) h.short;
    })

accept-IsOrderly : (ipc : Ipc) (peer : Option Peer) → IsOrderly ipc → IsOrderly (accept ipc peer).1
unfolding accept
accept-IsOrderly ipc none h = h
accept-IsOrderly ipc (some peer) h = elim (Bool-cases (uid_refused peer.uid)) [
  | inl e ↦ rw (accept, e) h
  | inr e ↦ elim (Bool-cases (leb max_clients ipc.client_count)) [
    | inl f ↦ rw (accept, e, f) h
    | inr f ↦ elim (Bool-cases peer.nonblock) [
      | inr g ↦ rw (accept, e, f, g) h
      | inl g ↦ elim (Option-cases (free_from 0 ipc.clients)) [
        | inl o ↦ rw (accept, e, f, g, o) h
        | inr (i, o) ↦ rw (accept, e, f, g, o) (entered-IsOrderly ipc i peer.cfd h o)
      ]
    ]
  ]
]

removed-IsOrderly :
    (ipc : Ipc) (i : ℕ) (c : Client)
    → IsOrderly ipc
    → get_elem? ipc.clients i ≡ some c
    → is_used c ≡ true
    → IsOrderly (client_remove ipc i)
unfolding client_remove
removed-IsOrderly ipc i c h e u = record {
  size = length-set ipc.clients i free_client ∙ h.size;
  counted =
      let on : flag (is_used c) ≡ 1 = ap flag u in
      omega (arith, h.counted, count-set is_used ipc.clients i c free_client e);
  short = AllShort-set ipc.clients i free_client (omega arith) h.short;
}

close-IsOrderly : (ipc : Ipc) → IsOrderly ipc → IsOrderly (close ipc)
unfolding close
close-IsOrderly ipc h = record {
  size = length-map ipc.clients ∙ h.size;
  counted = sym (none_left ipc.clients);
  short = still ipc.clients h.short;
}
  where
    still : (cs : List Client) → AllShort cs → AllShort (map without_fd cs)
    still [] a = tt
    still (c ∷ cs) (b, a) = (b, still cs a)

    length-map : (cs : List Client) → length (map without_fd cs) ≡ length cs
    length-map [] = refl
    length-map (c ∷ cs) = ap suc (length-map cs)

    none_left : (cs : List Client) → count is_used (map without_fd cs) ≡ 0
    none_left [] = refl
    none_left (c ∷ cs) = omega (arith, none_left cs)

module _ {J S : Type 0} (service : Service J S) where
  -- What stays of a chunk and of what was there before leaves room.
  process_chunk_short :
      (buf chunk : Bytes) (s : Session service)
      → length buf < buf_size
      → length (process_chunk service buf chunk s).1 < buf_size
  unfolding process_chunk process_lines
  process_chunk_short buf chunk s lt =
      let more = take (buf_size - length buf - 1) chunk in
      let (free, le) = loop-left service (length (buf ++ more)) (buf ++ more) s (omega arith) in
      omega (arith, length-append buf more, length-take (buf_size - length buf - 1) chunk)

  kept_client-IsOrderly :
      (ipc : Ipc) (i : ℕ) (c : Client) (r : Session service × Bytes)
      → IsOrderly ipc
      → get_elem? ipc.clients i ≡ some c
      → length r.1 < buf_size
      → IsOrderly (kept_client service ipc i c r).1
  kept_client-IsOrderly ipc i c (s, left) h e lt =
      let c' : Client = record c {
        buf = left;
        subscribed_log = s.log_on;
        subscribed_stats = s.stats_on;
      } in
      record {
        size = length-set ipc.clients i c' ∙ h.size;
        counted =
            let n : ipc.client_count ≡ count is_used ipc.clients = h.counted in
            n ∙ sym (omega (arith, count-set is_used ipc.clients i c c' e));
        short = AllShort-set ipc.clients i c' lt h.short;
      }

  process_read-IsOrderly :
      (ipc : Ipc) (i : ℕ) (c : Client) (r : Read service) (d : S)
      → IsOrderly ipc
      → get_elem? ipc.clients i ≡ some c
      → is_used c ≡ true
      → IsOrderly (process_read service ipc i c r d).1
  process_read-IsOrderly ipc i c (got chunk) d h e u =
      kept_client-IsOrderly ipc i c (process_chunk service c.buf chunk (session_of service c d)) h e
        (process_chunk_short c.buf chunk (session_of service c d)
          (AllShort-get ipc.clients i c h.short e))
  process_read-IsOrderly ipc i c later d h e u = h
  process_read-IsOrderly ipc i c gone d h e u = removed-IsOrderly ipc i c h e u

  process-IsOrderly :
      (ipc : Ipc) (i : ℕ) (c : Client) (r : Read service) (d : S)
      → IsOrderly ipc
      → get_elem? ipc.clients i ≡ some c
      → is_used c ≡ true
      → IsOrderly (process service ipc i r d).1
  unfolding process
  process-IsOrderly ipc i c r d h e u = elim (Bool-cases (buf_size - length c.buf - 1 == 0)) [
    | inl z ↦ rw (process, e, z) (removed-IsOrderly ipc i c h e u)
    | inr z ↦ rw (process, e, z) (process_read-IsOrderly ipc i c r d h e u)
  ]

  -- One operation on the table. A client whose descriptor is ready is in use.
  pub data Step (ipc ipc' : Ipc) : Type 0 where
    accepts : (peer : Option Peer) → ipc' ≡ (accept ipc peer).1 → Step ipc ipc'
    processes :
        (i : ℕ) (c : Client) (r : Read service) (d : S)
        → get_elem? ipc.clients i ≡ some c
        → is_used c ≡ true
        → ipc' ≡ (process service ipc i r d).1
        → Step ipc ipc'
    closes : ipc' ≡ close ipc → Step ipc ipc'

  pub data Reach : Ipc → Type 0 where
    start : Reach init
    next : {ipc ipc' : Ipc} → Reach ipc → Step ipc ipc' → Reach ipc'

  Step-IsOrderly : {ipc ipc' : Ipc} → Step ipc ipc' → IsOrderly ipc → IsOrderly ipc'
  Step-IsOrderly {ipc} (accepts peer e) h = rw e (accept-IsOrderly ipc peer h)
  Step-IsOrderly {ipc} (processes i c r d g u e) h = rw e (process-IsOrderly ipc i c r d h g u)
  Step-IsOrderly {ipc} (closes e) h = rw e (close-IsOrderly ipc h)

  -- In every state that connections, requests, disconnections and the closing of the socket reach
  -- from an empty table, in any order, the table has its 16 entries, `client_count` is the number of
  -- those in use, and every buffer has room for a byte behind what it holds.
  pub Reach-IsOrderly : {ipc : Ipc} → Reach ipc → IsOrderly ipc
  Reach-IsOrderly start = init-IsOrderly
  Reach-IsOrderly (next r st) = Step-IsOrderly st (Reach-IsOrderly r)
