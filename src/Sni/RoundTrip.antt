-- ===== src/Sni/RoundTrip.antt =====
-- `pf_sni_extract` against an independent description of a TLS ClientHello record.
use proxiflare.Prelude.{
  ℕ, zero, suc, ◌+◌, ◌-◌, ◌*◌, ◌/◌, ◌%◌, ◌≤◌, ◌<◌, ◌≡◌, ◌≢◌, refl, sym, ap, ◌∙◌, arith, false, leb,
  ltb, if◌then◌else◌, Bytes, List, [], ◌∷◌, ◌++◌, length, take, Bool-cases, inl, inr, leb→le,
  le→leb, le→ltb, length-append, At, At-start, At-get, At-suc, At-skip, At-take, At-move, take-all,
  ==_ne, get_elem?-lt,
}
use proxiflare.Sni.{sni_body, ext_loop, extensions, cipher_suites, client_hello_body, extract}
use proxiflare.Sni.Wire.{
  u16, Ext, AllOther, sni_ext, ext_list, Hello, IsHello, ext_block, exts_total, suites_part,
  payload_len, encode, nonempty, ext_list_room, ext_list_size, length-ext_block, length-payload,
}
use proxiflare.Sni.Reader.{done, guard, u8, u16be, u24be, copy, check, u8-done}

guard-leb : (a b : ℕ) → a ≤ b → guard (leb a b) ≡ done tt
guard-leb a b h = rw (le→leb a b h)

module _ {d : Bytes} where
  u8-At : (off x : ℕ) (rest : Bytes) → At d off (x ∷ rest) → u8 d off ≡ done x
  unfolding u8
  u8-At off x rest h = rw (At-get off x rest h, u8)

  u16be-At :
      (off n : ℕ) (rest : Bytes) → n < 65536 → At d off (u16 n ++ rest) → u16be d off ≡ done n
  unfolding u16be
  u16be-At off n rest lt h =
      rw (u8-At off (n / 256) _ h, u8-At (off + 1) (n % 256) _ (At-suc off _ _ h))
        (ap done (omega arith))

  check-At : (off n : ℕ) (rest : Bytes) → n ≤ length rest → At d off rest → check d off n ≡ done tt
  unfolding check
  check-At off n rest le h = rw (le→ltb (length d) (off + n) (omega (arith, h.ends)))

  -- The two bytes of a length, and what follows them.
  At-u16 : (off n : ℕ) (rest : Bytes) → At d off (u16 n ++ rest) → At d (off + 2) rest
  At-u16 off n rest h = At-skip (u16 n) off 2 rest refl h

  -- The copy takes the name, or as much of it as leaves room for the NUL.
  name-At :
      (name rest : Bytes) (off m : ℕ)
      → 0 < m
      → At d off (name ++ rest)
      → copy d off (if leb m (length name) then m - 1 else length name) ≡ done (take (m - 1) name)
  unfolding copy
  name-At name rest off m pos h =
      let n = if leb m (length name) then m - 1 else length name in
      let a = length-append name rest in
      let short : n ≤ length name = ground arith in
      let e = h.ends in
      let fits : ltb (length d) (off + n) ≡ false = le→ltb (length d) (off + n) (omega arith) in
      rw fits (elim (Bool-cases (leb m (length name))) [
        | inl e ↦ rw e (ap done (At-take name off (m - 1) rest (omega (arith, leb→le _ _ e)) h))
        | inr e ↦ rw e (
            ap done (
              At-take name off (length name) rest (omega arith) h
              ∙ take-all (length name) name (omega arith)
              ∙ sym (take-all (m - 1) name (ground arith))))
      ])

  sni_body-At :
      (name rest : Bytes) (off sni_end m : ℕ)
      → name ≢ []
      → length name < 65536
      → 0 < m
      → sni_end ≡ off + (length name + 5)
      → At d off (u16 (length name + 3) ++ (0 ∷ (u16 (length name) ++ (name ++ rest))))
      → sni_body d off sni_end m ≡ done (take (m - 1) name)
  unfolding sni_body
  sni_body-At name rest off sni_end m ne fits pos e h =
      let h2 = At-u16 off (length name + 3) _ h in
      let h3 = At-move (off + 2 + 1) (off + 3) _ (omega arith) (At-suc (off + 2) 0 _ h2) in
      let h5 =
        At-move (off + 3 + 2) (off + 5) _ (omega arith) (At-u16 (off + 3) (length name) _ h3) in
      rw
        (
          guard-leb (off + 2) sni_end (omega arith),
          guard-leb (off + 2 + 1) sni_end (omega arith),
          u8-At (off + 2) 0 _ h2,
          guard-leb (off + 3 + 2) sni_end (omega arith),
          u16be-At (off + 3) (length name) _ fits h3,
          guard-leb (off + 5 + length name) sni_end (omega arith),
          ==_ne (length name) 0 (nonempty name ne),
          name-At name rest (off + 5) m pos h5,
        )
        refl

  -- The other extensions are passed over, and the first server_name is taken.
  ext_loop-At :
      (es : List Ext) (name rest : Bytes) (fuel off exts_end m : ℕ)
      → AllOther es
      → name ≢ []
      → length name + 5 < 65536
      → 0 < m
      → off + length (ext_list es (sni_ext name rest)) ≤ exts_end + length rest
      → length es < fuel
      → At d off (ext_list es (sni_ext name rest))
      → ext_loop fuel d off exts_end m ≡ done (take (m - 1) name)
  unfolding ext_loop
  ext_loop-At es name rest zero off exts_end m o ne fits pos e lt h = absurd (omega arith)
  ext_loop-At [] name rest (suc fuel) off exts_end m o ne fits pos e lt h =
      let h2 = At-u16 off 0 _ h in
      let h4 =
        At-move (off + 2 + 2) (off + 4) _ (omega arith) (At-u16 (off + 2) (length name + 5) _ h2) in
      let le : off + 4 + (length name + 5) ≤ exts_end = omega (arith, length-append name rest) in
      rw
        (
          le→leb (off + 4) exts_end (omega arith),
          ext_loop,
          u16be-At off 0 _ (omega arith) h,
          u16be-At (off + 2) (length name + 5) _ fits h2,
          guard-leb (off + 4 + (length name + 5)) exts_end le,
        )
        (sni_body-At name rest (off + 4) (off + 4 + (length name + 5)) m ne (omega arith) pos refl
          h4)
  ext_loop-At (x ∷ es) name rest (suc fuel) off exts_end m o ne fits pos e lt h =
      let n = length x.body in
      let more = ext_list es (sni_ext name rest) in
      let h2 = At-u16 off x.ext_type _ h in
      let h4 = At-move (off + 2 + 2) (off + 4) _ (omega arith) (At-u16 (off + 2) n _ h2) in
      let h' = At-skip x.body (off + 4) n more refl h4 in
      let e' : off + 4 + n + length more ≤ exts_end + length rest =
        omega (arith, length-append x.body more) in
      let le : off + 4 + n ≤ exts_end = omega (arith, ext_list_room es name rest) in
      rw
        (
          le→leb (off + 4) exts_end (omega arith),
          ext_loop,
          u16be-At off x.ext_type _ (o.0.type_fits) h,
          u16be-At (off + 2) n _ (o.0.body_fits) h2,
          guard-leb (off + 4 + n) exts_end le,
          ==_ne x.ext_type 0 (o.0.not_sni),
        )
        (ext_loop-At es name rest fuel (off + 4 + n) exts_end m o.1 ne fits pos e' (omega arith) h')

module _ (h : Hello) (ok : IsHello h) (m : ℕ) (pos : 0 < m) {d : Bytes} where
  extensions-At :
      (off : ℕ)
      → At d off (u16 (exts_total h) ++ ext_block h)
      → extensions d off m ≡ done (take (m - 1) h.name)
  unfolding extensions
  extensions-At off a =
      let a2 = At-u16 off (exts_total h) _ a in
      rw
        (
          check-At off 2 _ (omega arith) a,
          u16be-At off (exts_total h) _ (omega (arith, ok.record_fits)) a,
          check-At (off + 2) (exts_total h) _ (omega (arith, length-ext_block h)) a2,
        )
        (ext_loop-At h.before h.name (h.after ++ h.behind) (suc (length d)) (off + 2)
          (off + 2 + exts_total h) m ok.others ok.has_name
          (omega (arith, ok.record_fits, ext_list_size h.before h.name h.after)) pos
          (omega (arith, length-ext_block h, length-append h.after h.behind))
          (omega (arith, a2.ends, ext_list_size h.before h.name (h.after ++ h.behind))) a2)

  cipher_suites-At :
      (off : ℕ) → At d off (suites_part h) → cipher_suites d off m ≡ done (take (m - 1) h.name)
  unfolding cipher_suites
  cipher_suites-At off a =
      let cs = length h.suites in
      let cm = length h.compression in
      let tail = u16 (exts_total h) ++ ext_block h in
      let a2 = At-u16 off cs _ a in
      let a3 = At-skip h.suites (off + 2) cs (cm ∷ (h.compression ++ tail)) refl a2 in
      let a4 = At-suc (off + 2 + cs) cm _ a3 in
      let a5 = At-skip h.compression (off + 2 + cs + 1) cm tail refl a4 in
      rw
        (
          check-At off 2 _ (omega arith) a,
          u16be-At off cs _ (omega (arith, ok.record_fits)) a,
          check-At (off + 2) cs _
              (omega (arith, length-append h.suites (cm ∷ (h.compression ++ tail)))) a2,
          check-At (off + 2 + cs) 1 _ (omega arith) a3,
          u8-At (off + 2 + cs) cm _ a3,
          check-At (off + 2 + cs + 1) cm _ (omega (arith, length-append h.compression tail)) a4,
        )
        (extensions-At (off + 2 + cs + 1 + cm) a5)

  client_hello_body-At :
      At d 6 (
        h.hs_len
        ++ (h.version ++ (h.random ++ (length h.session_id ∷ (h.session_id ++ suites_part h)))))
      → client_hello_body d m ≡ done (take (m - 1) h.name)
  unfolding client_hello_body
  client_hello_body-At a =
      let sid = length h.session_id in
      let b4 = h.session_id ++ suites_part h in
      let b3 = h.random ++ (sid ∷ b4) in
      let a9 =
        At-move (6 + 3) 9 _ (omega arith)
          (At-skip h.hs_len 6 3 (h.version ++ b3) ok.hs_len_size a) in
      let a11 = At-move (9 + 2) 11 _ (omega arith) (At-skip h.version 9 2 b3 ok.version_size a9) in
      let a43 =
        At-move (11 + 32) 43 _ (omega arith)
          (At-skip h.random 11 32 (sid ∷ b4) ok.random_size a11) in
      let a44 = At-move (43 + 1) 44 _ (omega arith) (At-suc 43 sid b4 a43) in
      rw
        (
          check-At 9 2 _ (omega (arith, ok.version_size, length-append h.version b3)) a9,
          check-At 11 32 _ (omega (arith, ok.random_size, length-append h.random (sid ∷ b4))) a11,
          check-At 43 1 _ (omega arith) a43,
          u8-At 43 sid _ a43,
          check-At 44 sid _ (omega (arith, length-append h.session_id (suites_part h))) a44,
        )
        (cipher_suites-At (44 + sid) (At-skip h.session_id 44 sid (suites_part h) refl a44))

u24be-done : (d : Bytes) (off : ℕ) → off + 2 < length d → (n : ℕ) × (u24be d off ≡ done n)
unfolding u24be
u24be-done d off h =
    let (a, e) = get_elem?-lt d off (omega arith) in
    let (b, e') = get_elem?-lt d (off + 1) (omega arith) in
    let (c, e'') = get_elem?-lt d (off + 2) h in
    (a * 65536 + b * 256 + c, rw (u8-done d off e, u8-done d (off + 1) e', u8-done d (off + 2) e''))

extract-At :
    (h : Hello) (m : ℕ)
    → IsHello h
    → 0 < m
    → {d : Bytes} → At d 0 (encode h)
    → extract d m ≡ done (take (m - 1) h.name)
unfolding extract
extract-At h m ok pos {d} a0 =
    let n = payload_len h in
    let a1 = At-move (0 + 1) 1 _ (omega arith) (At-suc 0 0x16 _ a0) in
    let a2 = At-move (1 + 1) 2 _ (omega arith) (At-suc 1 0x03 _ a1) in
    let a3 = At-move (2 + 1) 3 _ (omega arith) (At-suc 2 h.record_minor _ a2) in
    let a5 = At-move (3 + 2) 5 _ (omega arith) (At-u16 3 n _ a3) in
    let a6 = At-move (5 + 1) 6 _ (omega arith) (At-suc 5 0x01 _ a5) in
    rw
      (
        ==_ne m 0 (omega arith),
        check-At 0 5 _ (omega arith) a0,
        u8-At 0 0x16 _ a0,
        u8-At 1 0x03 _ a1,
        u16be-At 3 n _ ok.record_fits a3,
        check-At 5 n _ (omega (arith, length-payload h ok)) a5,
        check-At 5 4 _ (omega (arith, length-payload h ok)) a5,
        u8-At 5 0x01 _ a5,
        (u24be-done d 6 (omega (arith, length-payload h ok))).1,
      )
      (client_hello_body-At h ok m pos a6)

-- `pf_sni_extract` finds the host name of every well-formed ClientHello that carries one, wherever
-- the server_name extension stands among the extensions, and hands it back whole or cut to the
-- `out_max - 1` bytes that the caller's buffer holds.
pub extract-encode :
    (h : Hello) (out_max : ℕ)
    → IsHello h
    → 0 < out_max
    → extract (encode h) out_max ≡ done (take (out_max - 1) h.name)
extract-encode h m ok pos = extract-At h m ok pos At-start
