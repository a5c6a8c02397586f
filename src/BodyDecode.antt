-- ===== src/BodyDecode.antt =====
-- daemon/src/body_decode.c: which decoder a body of the capture goes through. The decoders are calls
-- of zlib, brotli and zstd: parameters, by the input and the room, where `none` is -1.
use proxiflare.Prelude.{
  ℕ, Bool, ◌||◌, Option, none, some, [], ◌==◌, if◌then◌else◌, Bytes, length, take, codes, eq_ci,
}

pub record Codecs : Type 0 where
  pub decode_gzip : Bytes → ℕ → Option Bytes
  pub decode_brotli : Bytes → ℕ → Option Bytes
  pub decode_zstd : Bytes → ℕ → Option Bytes

abbrev pub copy_identity : Bytes → ℕ → Option Bytes
copy_identity input out_cap = some (take out_cap input)

-- strncasecmp(encoding, token, strlen(token)) == 0
abbrev pub has_token : Bytes → Bytes → Bool
has_token token encoding = eq_ci (take (length token) encoding) token

-- `pf_body_decode` with an output buffer; an encoding that is NULL is empty.
unfoldable pub body_decode : Codecs → Bytes → Bytes → ℕ → Option Bytes
unfolding eq_ci
body_decode codecs encoding input out_cap =
    if out_cap == 0
    then none
    else if length input == 0
    then some []
    else if length encoding == 0 || eq_ci encoding (codes "identity")
    then copy_identity input out_cap
    else if has_token (codes "gzip") encoding
        || has_token (codes "x-gzip") encoding
        || has_token (codes "deflate") encoding
    then codecs.decode_gzip input out_cap
    else if has_token (codes "br") encoding
    then codecs.decode_brotli input out_cap
    else if has_token (codes "zstd") encoding
    then codecs.decode_zstd input out_cap
    else copy_identity input out_cap
