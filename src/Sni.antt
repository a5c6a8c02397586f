-- ===== src/Sni.antt =====
-- daemon/src/sni.c: `pf_sni_extract`, the bounds-checked TLS ClientHello parser.
pub mod Reader
pub mod Wire
pub mod Bounds
pub mod RoundTrip
use proxiflare.Prelude.{
  ℕ, zero, suc, ◌+◌, ◌-◌, Bool, true, false, arith, ◌==◌, leb, ltb, if◌then◌else◌, Bytes, length,
  take, drop,
}
use Reader.{Parse, done, reject, fault, ◌>>=◌, ◌>>◌, guard, u8, u16be, u24be, copy, check}

-- The body of the SNI extension at `off`, whose data ends at `sni_end`. The result is what is
-- copied to `out` before its NUL; `pf_sni_extract` returns its length.
unfoldable pub sni_body : Bytes → ℕ → ℕ → ℕ → Parse Bytes
unfolding u8 u16be copy
sni_body d off sni_end out_max = do
  guard (leb (off + 2) sni_end)
  guard (leb (off + 2 + 1) sni_end)
  name_type ← u8 d (off + 2)
  guard (name_type == 0x00)
  guard (leb (off + 3 + 2) sni_end)
  name_len ← u16be d (off + 3)
  guard (leb (off + 5 + name_len) sni_end)
  if name_len == 0
      then reject
      else copy d (off + 5) (if leb out_max name_len then out_max - 1 else name_len)

-- `while (off + 4 <= exts_end)`: each round moves `off` on by at least 4.
unfoldable pub ext_loop : ℕ → Bytes → ℕ → ℕ → ℕ → Parse Bytes
unfolding u16be sni_body
ext_loop zero d off exts_end out_max = fault
ext_loop (suc fuel) d off exts_end out_max = elim (leb (off + 4) exts_end) [
  | false ↦ reject
  | true ↦ do
    ext_type ← u16be d off
    ext_len ← u16be d (off + 2)
    guard (leb (off + 4 + ext_len) exts_end)
    elim (ext_type == 0x0000) [
      | true ↦ sni_body d (off + 4) (off + 4 + ext_len) out_max
      | false ↦ ext_loop fuel d (off + 4 + ext_len) exts_end out_max
    ]
]

-- From the extensions' length field on.
unfoldable pub extensions : Bytes → ℕ → ℕ → Parse Bytes
unfolding u16be check ext_loop
extensions d off out_max = do
  check d off 2
  exts_total ← u16be d off
  check d (off + 2) exts_total
  ext_loop (suc (length d)) d (off + 2) (off + 2 + exts_total) out_max

-- From the cipher suites' length field on.
unfoldable pub cipher_suites : Bytes → ℕ → ℕ → Parse Bytes
unfolding u8 u16be check extensions
cipher_suites d off out_max = do
  check d off 2
  cs_len ← u16be d off
  check d (off + 2) cs_len
  check d (off + 2 + cs_len) 1
  cm_len ← u8 d (off + 2 + cs_len)
  check d (off + 2 + cs_len + 1) cm_len
  extensions d (off + 2 + cs_len + 1 + cm_len) out_max

-- The ClientHello body, at offset 9.
unfoldable pub client_hello_body : Bytes → ℕ → Parse Bytes
unfolding u8 check cipher_suites
client_hello_body d out_max = do
  check d 9 2
  check d 11 32
  check d 43 1
  sid_len ← u8 d 43
  check d 44 sid_len
  cipher_suites d (44 + sid_len) out_max

-- `d` holds the `len` bytes of `data`; neither pointer is NULL.
unfoldable pub extract : Bytes → ℕ → Parse Bytes
unfolding u8 u16be u24be check client_hello_body
extract d out_max = if out_max == 0 then reject else do
  check d 0 5
  content ← u8 d 0
  guard (content == 0x16)
  major ← u8 d 1
  guard (major == 0x03)
  record_len ← u16be d 3
  check d 5 record_len
  check d 5 4
  handshake ← u8 d 5
  guard (handshake == 0x01)
  _ ← u24be d 6
  client_hello_body d out_max
