-- ===== src/Sni/Wire.antt =====
-- An independent description of a TLS ClientHello record on the wire, and its lengths.
use proxiflare.Prelude.{
  ℕ, ◌+◌, ◌/◌, ◌%◌, ◌≤◌, ◌<◌, ◌≡◌, ◌≢◌, refl, arith, Bytes, List, [], ◌∷◌, ◌++◌, length,
  length-append,
}

abbrev pub u16 : ℕ → Bytes
u16 n = n / 256 ∷ n % 256 ∷ []

-- An extension of another type than server_name.
pub record Ext : Type 0 where
  pub ext_type : ℕ
  pub body : Bytes

pub record IsOther (e : Ext) : Type 0 where
  pub not_sni : e.ext_type ≢ 0
  pub type_fits : e.ext_type < 65536
  pub body_fits : length e.body < 65536

abbrev pub AllOther : List Ext → Type 0
AllOther [] = Unit
AllOther (e ∷ es) = IsOther e × AllOther es

-- A server_name extension that holds one host name, followed by `rest`.
abbrev pub sni_ext : Bytes → Bytes → Bytes
sni_ext name rest =
    0
    ∷ 0
    ∷ (u16 (length name + 5)
        ++ (u16 (length name + 3) ++ (0 ∷ (u16 (length name) ++ (name ++ rest)))))

abbrev pub ext_list : List Ext → Bytes → Bytes
ext_list [] rest = rest
ext_list (e ∷ es) rest = u16 e.ext_type ++ (u16 (length e.body) ++ (e.body ++ ext_list es rest))

pub nonempty : (name : Bytes) → name ≢ [] → length name ≢ 0
nonempty [] ne e = ne refl
nonempty (x ∷ name) ne e = absurd (omega arith)

-- Behind the listed extensions at least the rest follows.
pub ext_list_room :
    (es : List Ext) (name rest : Bytes) → length rest ≤ length (ext_list es (sni_ext name rest))
ext_list_room [] name rest = omega (arith, length-append name rest)
ext_list_room (x ∷ es) name rest =
    omega
      (arith, ext_list_room es name rest, length-append x.body (ext_list es (sni_ext name rest)))

-- The parts of a ClientHello; `after` is what follows the server_name extension inside the
-- extension block, and `behind` what follows the record in the buffer.
pub record Hello : Type 0 where
  pub record_minor : ℕ
  pub hs_len : Bytes
  pub version : Bytes
  pub random : Bytes
  pub session_id : Bytes
  pub suites : Bytes
  pub compression : Bytes
  pub before : List Ext
  pub name : Bytes
  pub after : Bytes
  pub behind : Bytes

abbrev pub ext_block : Hello → Bytes
ext_block h = ext_list h.before (sni_ext h.name (h.after ++ h.behind))

abbrev pub exts_total : Hello → ℕ
exts_total h = length (ext_list h.before (sni_ext h.name h.after))

abbrev pub suites_part : Hello → Bytes
suites_part h =
    u16 (length h.suites)
    ++ (h.suites ++ (length h.compression ∷ (h.compression ++ (u16 (exts_total h) ++ ext_block h))))

abbrev pub payload : Hello → Bytes
payload h =
    0x01
    ∷ (h.hs_len
        ++ (h.version ++ (h.random ++ (length h.session_id ∷ (h.session_id ++ suites_part h)))))

abbrev pub payload_len : Hello → ℕ
payload_len h =
    1
    + 3
    + 2
    + 32
    + 1
    + length h.session_id
    + 2
    + length h.suites
    + 1
    + length h.compression
    + 2
    + exts_total h

-- The bytes on the wire.
abbrev pub encode : Hello → Bytes
encode h = 0x16 ∷ 0x03 ∷ h.record_minor ∷ (u16 (payload_len h) ++ payload h)

-- The field sizes of RFC 8446 that the parser depends on; the last one bounds every length in it.
pub record IsHello (h : Hello) : Type 0 where
  pub hs_len_size : length h.hs_len ≡ 3
  pub version_size : length h.version ≡ 2
  pub random_size : length h.random ≡ 32
  pub others : AllOther h.before
  pub has_name : h.name ≢ []
  pub record_fits : payload_len h < 65536

-- What `rest` adds to the length of a list of extensions.
pub length-ext_list :
    (es : List Ext) (name rest : Bytes)
    → length (ext_list es (sni_ext name rest))
      ≡ length (ext_list es (sni_ext name [])) + length rest
length-ext_list [] name rest = omega (arith, length-append name rest, length-append name [])
length-ext_list (x ∷ es) name rest = omega (
  arith,
  length-ext_list es name rest,
  length-append x.body (ext_list es (sni_ext name rest)),
  length-append x.body (ext_list es (sni_ext name [])),
)

-- The list is longer than it has members, and than the name in it.
pub ext_list_size :
    (es : List Ext) (name rest : Bytes)
    → length es + length name + 9 ≤ length (ext_list es (sni_ext name rest))
ext_list_size [] name rest = omega (arith, length-append name rest)
ext_list_size (x ∷ es) name rest =
    omega
      (arith, ext_list_size es name rest, length-append x.body (ext_list es (sni_ext name rest)))

pub length-ext_block : (h : Hello) → length (ext_block h) ≡ exts_total h + length h.behind
length-ext_block h = omega (
  arith,
  length-ext_list h.before h.name (h.after ++ h.behind),
  length-ext_list h.before h.name h.after,
  length-append h.after h.behind,
)

pub length-payload : (h : Hello) → IsHello h → length (payload h) ≡ payload_len h + length h.behind
length-payload h ok =
    let b5 =
      h.suites ++ (length h.compression ∷ (h.compression ++ (u16 (exts_total h) ++ ext_block h))) in
    let b4 = h.session_id ++ suites_part h in
    let b3 = h.random ++ (length h.session_id ∷ b4) in
    omega (
      arith,
      ok.hs_len_size,
      ok.version_size,
      ok.random_size,
      length-ext_block h,
      length-append h.hs_len (h.version ++ b3),
      length-append h.version b3,
      length-append h.random (length h.session_id ∷ b4),
      length-append h.session_id (suites_part h),
      length-append h.suites
          (length h.compression ∷ (h.compression ++ (u16 (exts_total h) ++ ext_block h))),
      length-append h.compression (u16 (exts_total h) ++ ext_block h),
    )
