-- ===== src/Sni/Bounds.antt =====
-- No read of `pf_sni_extract` leaves the buffer, and its loop ends.
use proxiflare.Prelude.{
  ℕ, zero, suc, ◌+◌, ◌-◌, ◌≤◌, ◌<◌, ◌≡◌, ◌≢◌, true, false, arith, ◌==◌, leb, if◌then◌else◌, Bytes,
  length, take, drop, Bool-cases, inl, inr, leb→le,
}
use proxiflare.Sni.{sni_body, ext_loop, extensions, cipher_suites, client_hello_body, extract}
use proxiflare.Sni.Reader.{
  done, reject, fault, Safe, stop, Safe-bind, Safe-ne-fault, Safe-done, u8-Safe, u16be-Safe,
  u24be-Safe, check-Safe, guard-Safe, copy, copy-Safe, Safe-weaken,
}

-- What is handed back: a piece of the buffer that leaves room for the NUL.
pub record IsPiece (d : Bytes) (out_max : ℕ) (out : Bytes) : Type 0 where
  pub start : ℕ
  pub len : ℕ
  pub inside : start + len ≤ length d
  pub piece : out ≡ take len (drop start d)
  pub room : len < out_max

module _ (d : Bytes) (m : ℕ) (pos : 0 < m) where
  IsName : Bytes → Type 0
  IsName = IsPiece d m

  IsName-Safe :
      (off n : ℕ)
      → off + n ≤ length d
      → Safe IsName (if n == 0 then reject else copy d off (if leb m n then m - 1 else n))
  unfolding IsName
  IsName-Safe off n h = elim (Bool-cases (n == 0)) [
    | inl e ↦ rw e stop
    | inr e ↦
        let len = if leb m n then m - 1 else n in
        let inside : off + len ≤ length d = ground arith in
        rw e (
          Safe-weaken (copy-Safe d off len inside) λ out piece. record {
            start = off;
            len = len;
            inside = inside;
            piece = piece;
            room = ground arith;
          })
  ]

  sni_body-Safe : (off sni_end : ℕ) → sni_end ≤ length d → Safe IsName (sni_body d off sni_end m)
  unfolding sni_body
  sni_body-Safe off sni_end h = Safe-bind (guard-Safe (leb (off + 2) sni_end)) λ _ g1.
      Safe-bind (guard-Safe (leb (off + 2 + 1) sni_end)) λ _ g2.
        Safe-bind (u8-Safe d (off + 2) (omega (arith, leb→le _ _ g2))) λ t _.
          Safe-bind (guard-Safe (t == 0x00)) λ _ _.
            Safe-bind (guard-Safe (leb (off + 3 + 2) sni_end)) λ _ g3.
              Safe-bind (u16be-Safe d (off + 3) (omega (arith, leb→le _ _ g3))) λ n _.
                Safe-bind (guard-Safe (leb (off + 5 + n) sni_end))
                  λ _ g4. IsName-Safe (off + 5) n (omega (arith, leb→le _ _ g4))

  -- The rounds left exceed the bytes left, so they are not used up.
  ext_loop-Safe :
      (fuel off exts_end : ℕ)
      → exts_end ≤ length d
      → off ≤ exts_end
      → exts_end < fuel + off
      → Safe IsName (ext_loop fuel d off exts_end m)
  unfolding ext_loop
  ext_loop-Safe zero off exts_end h le lt = absurd (omega arith)
  ext_loop-Safe (suc fuel) off exts_end h le lt = elim (Bool-cases (leb (off + 4) exts_end)) [
    | inr e ↦ rw (e, ext_loop) stop
    | inl e ↦
        rw (e, ext_loop)
          (Safe-bind (u16be-Safe d off (omega (arith, leb→le _ _ e))) λ ty _.
            Safe-bind (u16be-Safe d (off + 2) (omega (arith, leb→le _ _ e))) λ n _.
              Safe-bind (guard-Safe (leb (off + 4 + n) exts_end)) λ _ g.
                next ty n (leb→le _ _ g)
                  (ext_loop-Safe fuel (off + 4 + n) exts_end h (leb→le _ _ g) (omega arith)))
  ]
    where
      next :
          (ty n : ℕ)
          → off + 4 + n ≤ exts_end
          → Safe IsName (ext_loop fuel d (off + 4 + n) exts_end m)
          → Safe IsName (elim (ty == 0x0000) [
            | true ↦ sni_body d (off + 4) (off + 4 + n) m
            | false ↦ ext_loop fuel d (off + 4 + n) exts_end m
          ])
      next ty n g later =
          elim (ty == 0x0000)
            as (λ b. Safe IsName (elim b [
              | true ↦ sni_body d (off + 4) (off + 4 + n) m
              | false ↦ ext_loop fuel d (off + 4 + n) exts_end m
            ])) [ true ↦ sni_body-Safe (off + 4) (off + 4 + n) (omega arith) | false ↦ later ]

  extensions-Safe : (off : ℕ) → Safe IsName (extensions d off m)
  unfolding extensions
  extensions-Safe off = Safe-bind (check-Safe d off 2) λ _ c.
      Safe-bind (u16be-Safe d off (omega arith)) λ n _. Safe-bind (check-Safe d (off + 2) n) λ _ c'.
        ext_loop-Safe (suc (length d)) (off + 2) (off + 2 + n) c' (omega arith) (omega arith)

  cipher_suites-Safe : (off : ℕ) → Safe IsName (cipher_suites d off m)
  unfolding cipher_suites
  cipher_suites-Safe off = Safe-bind (check-Safe d off 2) λ _ c.
      Safe-bind (u16be-Safe d off (omega arith)) λ cs _.
        Safe-bind (check-Safe d (off + 2) cs) λ _ _.
          Safe-bind (check-Safe d (off + 2 + cs) 1) λ _ c'.
            Safe-bind (u8-Safe d (off + 2 + cs) (omega arith)) λ cm _.
              Safe-bind (check-Safe d (off + 2 + cs + 1) cm)
                λ _ _. extensions-Safe (off + 2 + cs + 1 + cm)

  client_hello_body-Safe : Safe IsName (client_hello_body d m)
  unfolding client_hello_body
  client_hello_body-Safe = Safe-bind (check-Safe d 9 2) λ _ _. Safe-bind (check-Safe d 11 32) λ _ _.
      Safe-bind (check-Safe d 43 1) λ _ c.
        Safe-bind (u8-Safe d 43 (omega arith))
          λ sid _. Safe-bind (check-Safe d 44 sid) λ _ _. cipher_suites-Safe (44 + sid)

extract-Safe : (d : Bytes) (m : ℕ) → Safe (IsPiece d m) (extract d m)
unfolding extract IsName
extract-Safe d m = elim (Bool-cases (m == 0)) [
  | inl e ↦ rw e stop
  | inr e ↦ rw e (
      Safe-bind (check-Safe d 0 5) λ _ c. Safe-bind (u8-Safe d 0 (omega arith)) λ t _.
        Safe-bind (guard-Safe (t == 0x16)) λ _ _. Safe-bind (u8-Safe d 1 (omega arith)) λ v _.
          Safe-bind (guard-Safe (v == 0x03)) λ _ _. Safe-bind (u16be-Safe d 3 (omega arith)) λ n _.
            Safe-bind (check-Safe d 5 n) λ _ _. Safe-bind (check-Safe d 5 4) λ _ c4.
              Safe-bind (u8-Safe d 5 (omega arith)) λ h _. Safe-bind (guard-Safe (h == 0x01)) λ _ _.
                Safe-bind (u24be-Safe d 6 (omega arith))
                  λ _ _. client_hello_body-Safe d m (ground arith))
]

-- On every input, of any content and length, `pf_sni_extract` returns without reading a byte
-- outside the buffer, and its extension loop ends within its rounds.
pub extract-ne-fault : (d : Bytes) (out_max : ℕ) → extract d out_max ≢ fault
extract-ne-fault d m = Safe-ne-fault (extract-Safe d m)

-- What `pf_sni_extract` copies out is a contiguous piece of the packet, and it leaves room for the
-- terminating NUL in a buffer of `out_max` bytes.
pub extract-IsPiece :
    (d : Bytes) (out_max : ℕ) {out : Bytes} → extract d out_max ≡ done out → IsPiece d out_max out
extract-IsPiece d m e = Safe-done (extract-Safe d m) e
