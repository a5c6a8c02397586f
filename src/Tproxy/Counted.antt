-- ===== src/Tproxy/Counted.antt =====
-- The counter of the table of connections, over each operation.
use proxiflare.Prelude.{
  ℕ, zero, suc, ◌+◌, ◌≡◌, refl, sym, ap, ◌∙◌, inl, inr, Bool, true, false, not, ◌&&◌, ◌==◌, Option,
  none, some, List, [], ◌∷◌, length, get_elem?, set, length-set, Bool-cases, Option-cases,
  length-replicate, arith, Bytes,
}
use proxiflare.Prelude.Counts.{flag, count, count-set, count-replicate}
use proxiflare.Tproxy.{
  Connection, Tproxy, max_connections, free_connection, init, free_from, find_free_slot, closed,
  close_conn, close_from, Arrival, Incoming, nothing, broken, arrived, Upstream, blocked_off,
  unreachable, linked, new_connection, claim, enter, enter_late, intercept, Mitm, Callback,
  tproxy_accept, peek_domain, accept_at, accept_from, accept_to, thread_to,
}
use proxiflare.Tproxy.Relay.{Io, relay, relay_conn, pump, with_conn, is_open}

-- How many connections are active.
abbrev pub is_active : Connection → Bool
is_active c = c.active

abbrev pub active_count : List Connection → ℕ
active_count = count is_active

-- The table has its size, and its counter is the number of active connections.
pub record IsCounted (tp : Tproxy) : Type 0 where
  pub size : length tp.conns ≡ max_connections
  pub count : tp.conn_count ≡ active_count tp.conns

free_from-slot :
    (cs : List Connection) (i j : ℕ)
    → free_from i cs ≡ some j
    → (c : Connection) × (k : ℕ) × (j ≡ i + k) × (get_elem? cs k ≡ some c) × (c.active ≡ false)
unfolding free_from
free_from-slot [] i j e = cc
free_from-slot (c ∷ cs) i j e = elim (Bool-cases c.active) [
  | inr f ↦
      let h : some i ≡ some j = (rw f at e) in
      let same : i ≡ j = cc in (c, 0, sym same ∙ omega arith, refl, f)
  | inl t ↦
      let (d, k, s, g, f) = free_from-slot cs (i + 1) j (rw t at e) in
      (d, suc k, s ∙ omega arith, g, f)
]

pub init-IsCounted : IsCounted init
unfolding init
init-IsCounted = record {
  size = length-replicate max_connections free_connection;
  count = sym (count-replicate is_active max_connections free_connection refl);
}

claim-IsCounted :
    (tp : Tproxy) (slot : ℕ) (c : Connection)
    → IsCounted tp
    → find_free_slot tp ≡ some slot
    → c.active ≡ true
    → IsCounted (claim tp slot c)
unfolding find_free_slot
claim-IsCounted tp slot c h e a =
    let (d, k, s, g, f) = free_from-slot tp.conns 0 slot e in
    let at : slot ≡ k = omega (arith, s) in
    rw at (record {
      size = length-set tp.conns k c ∙ h.size;
      count =
          let off : flag d.active ≡ 0 = ap flag f in
          let on : flag c.active ≡ 1 = ap flag a in
          omega (arith, h.count, count-set is_active tp.conns k d c g);
    })

replaced-IsCounted :
    (tp : Tproxy) (i : ℕ) (old new : Connection)
    → IsCounted tp
    → get_elem? tp.conns i ≡ some old
    → new.active ≡ old.active
    → IsCounted (with_conn tp i new)
replaced-IsCounted tp i old new h g a = record {
  size = length-set tp.conns i new ∙ h.size;
  count =
      let same : flag new.active ≡ flag old.active = ap flag a in
      let n : tp.conn_count ≡ active_count tp.conns = h.count in
      let kept : active_count (set tp.conns i new) ≡ active_count tp.conns =
        omega (arith, count-set is_active tp.conns i old new g) in
      n ∙ sym kept;
}

pub close_conn-IsCounted : (tp : Tproxy) (i : ℕ) → IsCounted tp → IsCounted (close_conn tp i)
unfolding close_conn
close_conn-IsCounted tp i h = elim (Option-cases (get_elem? tp.conns i)) [
  | inl e ↦ rw (close_conn, e) h
  | inr (c, e) ↦ elim (Bool-cases c.active) [
    | inr f ↦ rw (close_conn, e, f) h
    | inl t ↦
        rw (close_conn, e, t)
          (record {
            size = length-set tp.conns i (closed c) ∙ h.size;
            count =
                let on : flag c.active ≡ 1 = ap flag t in
                let less : active_count (set tp.conns i (closed c)) + 1 ≡ active_count tp.conns =
                  omega (arith, count-set is_active tp.conns i c (closed c) e) in
                let n : tp.conn_count ≡ active_count tp.conns = h.count in ground arith;
          })
  ]
]

enter-IsCounted :
    (tp : Tproxy) (slot cfd : ℕ) (dst_ip : Bytes) (dst_port : ℕ) (peeked : Bytes) (u : Upstream)
    → IsCounted tp
    → find_free_slot tp ≡ some slot
    → IsCounted (enter tp slot cfd dst_ip dst_port peeked u).1
unfolding enter
enter-IsCounted tp slot cfd dst_ip dst_port peeked blocked_off h e = h
enter-IsCounted tp slot cfd dst_ip dst_port peeked unreachable h e = h
enter-IsCounted tp slot cfd dst_ip dst_port peeked (linked fd) h e =
    claim-IsCounted tp slot (new_connection cfd fd dst_ip dst_port peeked) h e refl

module _ {S : Type 0} where
  accept_at-IsCounted :
      (cb : Option (Callback S)) (tp : Tproxy) (a : Arrival) (dst_ip : Bytes) (dst_port slot : ℕ)
      (s : S)
      → IsCounted tp
      → find_free_slot tp ≡ some slot
      → IsCounted (accept_at cb tp a dst_ip dst_port slot s).0.1
  accept_at-IsCounted none tp a dst_ip dst_port slot s h f = h
  accept_at-IsCounted (some connect) tp a dst_ip dst_port slot s h f =
      enter-IsCounted tp slot a.cfd dst_ip dst_port a.peeked _ h f

  accept_to-IsCounted :
      (cb : Option (Callback S)) (tp : Tproxy) (a : Arrival) (dst : Option (Bytes × ℕ)) (s : S)
      → IsCounted tp
      → IsCounted (accept_to cb tp a dst s).0.1
  accept_to-IsCounted cb tp a none s h = h
  accept_to-IsCounted cb tp a (some (dst_ip, dst_port)) s h =
      elim (Option-cases (find_free_slot tp)) [
        | inl e ↦ rw (accept_from, e) h
        | inr (slot, e) ↦
            rw (accept_from, e) (accept_at-IsCounted cb tp a dst_ip dst_port slot s h e)
      ]

  pub tproxy_accept-IsCounted :
      (cb : Option (Callback S)) (tp : Tproxy) (a : Incoming) (s : S)
      → IsCounted tp
      → IsCounted (tproxy_accept cb tp a s).0.1
  unfolding tproxy_accept
  tproxy_accept-IsCounted cb tp nothing s h = h
  tproxy_accept-IsCounted cb tp broken s h = h
  tproxy_accept-IsCounted cb tp (arrived a) s h = accept_to-IsCounted cb tp a a.original s h

intercept_active :
    (m : Mitm) (cfd fd : ℕ) (domain : Bytes) (c : Connection)
    → (intercept m cfd fd domain c).active ≡ c.active
unfolding intercept
intercept_active m cfd fd domain c =
    elim (Bool-cases (m.enabled && m.has_key && c.is_tls && not (length domain == 0))) [
      | inl e ↦ rw (intercept, e) refl
      | inr e ↦ rw (intercept, e) refl
    ]

enter_late-IsCounted :
    (m : Mitm) (tp : Tproxy) (cfd : ℕ) (dst_ip : Bytes) (dst_port : ℕ) (peeked : Bytes)
    (u : Upstream)
    → IsCounted tp
    → IsCounted (enter_late m tp cfd dst_ip dst_port peeked u).1
unfolding enter_late
enter_late-IsCounted m tp cfd dst_ip dst_port peeked blocked_off h = h
enter_late-IsCounted m tp cfd dst_ip dst_port peeked unreachable h = h
enter_late-IsCounted m tp cfd dst_ip dst_port peeked (linked fd) h =
    elim (Option-cases (find_free_slot tp)) [
      | inl e ↦ rw (enter_late, e) h
      | inr (slot, e) ↦
          let c : Connection = new_connection cfd fd dst_ip dst_port peeked in
          rw (enter_late, e)
            (claim-IsCounted tp slot (intercept m cfd fd (peek_domain peeked) c) h e
              (intercept_active m cfd fd (peek_domain peeked) c))
    ]

module _ {S : Type 0} where
  pub thread_to-IsCounted :
      (m : Mitm) (cb : Option (Callback S)) (tp : Tproxy) (a : Arrival) (dst : Option (Bytes × ℕ))
      (s : S)
      → IsCounted tp
      → IsCounted (thread_to m cb tp a dst s).0.1
  thread_to-IsCounted m cb tp a none s h = h
  thread_to-IsCounted m none tp a (some (dst_ip, dst_port)) s h = h
  thread_to-IsCounted m (some connect) tp a (some (dst_ip, dst_port)) s h =
      enter_late-IsCounted m tp a.cfd dst_ip dst_port a.peeked _ h

pub close_from-IsCounted :
    (rounds i : ℕ) (tp : Tproxy) → IsCounted tp → IsCounted (close_from rounds i tp)
unfolding close_from
close_from-IsCounted zero i tp h = h
close_from-IsCounted (suc rounds) i tp h =
    close_from-IsCounted rounds (i + 1) (close_conn tp i) (close_conn-IsCounted tp i h)

relay_conn-IsCounted :
    (io : Io) (has_cb : Bool) (tp : Tproxy) (i : ℕ) (c : Connection)
    → IsCounted tp
    → get_elem? tp.conns i ≡ some c
    → IsCounted (relay_conn io has_cb tp i c).table
unfolding relay_conn
relay_conn-IsCounted io has_cb tp i c h e =
    elim (Bool-cases (pump io.proxy_writes io.client_read).alive) [
      | inr u ↦ rw (relay_conn, u) (close_conn-IsCounted tp i h)
      | inl u ↦ elim (Bool-cases (pump io.client_writes io.proxy_read).alive) [
        | inr d ↦
            rw (relay_conn, u, d) (close_conn-IsCounted _ i (replaced-IsCounted tp i c _ h e refl))
        | inl d ↦ rw (relay_conn, u, d) (replaced-IsCounted tp i c _ h e refl)
      ]
    ]

pub relay-IsCounted :
    (io : Io) (has_cb : Bool) (tp : Tproxy) (i : ℕ)
    → IsCounted tp
    → IsCounted (relay io has_cb tp i).table
unfolding relay
relay-IsCounted io has_cb tp i h = elim (Option-cases (get_elem? tp.conns i)) [
  | inl e ↦ rw (relay, e) h
  | inr (c, e) ↦ elim (Bool-cases (is_open c)) [
    | inr f ↦ rw (relay, e, f) h
    | inl f ↦ rw (relay, e, f) (relay_conn-IsCounted io has_cb tp i c h e)
  ]
]
