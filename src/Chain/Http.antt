-- ===== src/Chain/Http.antt =====
-- daemon/src/chain.c: `http_negotiate_on_fd`, the HTTP CONNECT client, with its base64 encoder.
-- A request that does not fit `req` fails in the model; the C code has then already computed the
-- room left in `req` from a length beyond it, which is why the host must stay below 4 KB.
use proxiflare.Prelude.{
  ℕ, zero, suc, ◌+◌, ◌-◌, ◌*◌, ◌/◌, ◌%◌, Bool, true, false, not, ◌&&◌, ◌||◌, Option, none, some, [],
  ◌∷◌, ◌++◌, ◌==◌, ltb, if◌then◌else◌, Bytes, length, get_or, codes, split_at,
}
use proxiflare.Prelude.Int.{ℤ, pos, eqb_ℤ, atoi}
use proxiflare.Net.{M, ◌>>=◌, ◌>>◌, ret, abort, require, recv, send_all}
use proxiflare.Socks.{text, has_auth, port_valid, buf_size}

-- The decimal digits of `%d`, with as many rounds as digits may come.
unfoldable pub decimal_from : ℕ → ℕ → Bytes → Bytes
decimal_from zero n acc = acc
decimal_from (suc fuel) n acc =
    let acc' = (b'0' + n % 10) ∷ acc in
    let rest = decimal_from fuel (n / 10) acc' in if n / 10 == 0 then acc' else rest

-- `%d` of a port: at most five digits.
unfoldable pub decimal : ℕ → Bytes
unfolding decimal_from
decimal n = decimal_from 5 n []

-- b64chars[v & 0x3F]
unfoldable pub b64_char : ℕ → ℕ
b64_char v =
    get_or (codes "ABCDEFGHIJKLMNOPQRSTUVWXYZabcdefghijklmnopqrstuvwxyz0123456789+/") (v % 64) 0

-- The loop over `creds`, three bytes a round.
unfoldable pub base64 : Bytes → Bytes
unfolding b64_char
base64 [] = []
base64 (a ∷ []) = b64_char (a * 65536 / 262144) ∷ b64_char (a * 65536 / 4096) ∷ b'=' ∷ b'=' ∷ []
base64 (a ∷ b ∷ []) =
    b64_char ((a * 65536 + b * 256) / 262144)
    ∷ b64_char ((a * 65536 + b * 256) / 4096)
    ∷ b64_char ((a * 65536 + b * 256) / 64)
    ∷ b'='
    ∷ []
base64 (a ∷ b ∷ c ∷ rest) =
    b64_char ((a * 65536 + b * 256 + c) / 262144)
    ∷ b64_char ((a * 65536 + b * 256 + c) / 4096)
    ∷ b64_char ((a * 65536 + b * 256 + c) / 64)
    ∷ b64_char (a * 65536 + b * 256 + c)
    ∷ base64 rest

abbrev crlf : Bytes
crlf = 13 ∷ 10 ∷ []

-- "username:password"
abbrev pub creds : Option Bytes → Option Bytes → Bytes
creds username password = text username ++ (b':' ∷ text password)

-- The request, by the encoder of the credentials.
unfoldable pub connect_text_with : (Bytes → Bytes) → Bytes → ℕ → Option Bytes → Option Bytes → Bytes
unfolding decimal
connect_text_with encode dst_host dst_port username password =
    codes "CONNECT "
    ++ (dst_host
        ++ (b':'
            ∷ (decimal dst_port
                ++ (codes " HTTP/1.1\r\nHost: "
                    ++ (dst_host
                        ++ (b':'
                            ∷ (decimal dst_port
                                ++ (crlf
                                    ++ ((if has_auth username
                                          then codes "Proxy-Authorization: Basic "
                                            ++ (encode (creds username password) ++ crlf)
                                          else [])
                                        ++ crlf)))))))))

unfoldable pub connect_text : Bytes → ℕ → Option Bytes → Option Bytes → Bytes
unfolding connect_text_with base64
connect_text dst_host dst_port username password =
    connect_text_with base64 dst_host dst_port username password

-- strstr(resp, "\r\n\r\n") != NULL; the search ends at a NUL.
unfoldable pub has_head_end : Bytes → Bool
has_head_end [] = false
has_head_end (x ∷ s) =
    let rest = has_head_end s in
    if x == 0
    then false
    else if x == 13 && get_or s 0 0 == 10 && get_or s 1 0 == 13 && get_or s 2 0 == 10
    then true
    else rest

-- RESP_BUF_SIZE
abbrev pub resp_size : ℕ
resp_size = 4096

-- `while (resp_len < RESP_BUF_SIZE - 1)`: each round reads a byte at least, so `resp_size` rounds
-- are enough.
unfoldable pub read_head : ℕ → Bytes → M Bytes
unfolding has_head_end
read_head zero resp = abort
read_head (suc fuel) resp =
    let more = (do
      b ← recv (resp_size - 1 - length resp)
      let rest = read_head fuel (resp ++ b)
      if has_head_end (resp ++ b) then ret (resp ++ b) else rest) in
    if ltb (length resp) (resp_size - 1) then more else abort

-- strchr(resp, ' ') and strtol behind it.
unfoldable pub status_of : Bytes → Option ℤ
unfolding split_at atoi
status_of resp = elim ((split_at 32 resp).1) [ none ↦ none | some t ↦ some (atoi t) ]

unfoldable pub check_status : Option ℤ → M (Unit {0})
check_status none = abort
check_status (some code) = require (not (eqb_ℤ code (pos 407)) && eqb_ℤ code (pos 200))

unfoldable pub http_negotiate : (ℕ → ℕ) → Bytes → ℕ → Option Bytes → Option Bytes → M (Unit {0})
unfolding connect_text read_head status_of check_status
http_negotiate accepts dst_host dst_port username password = do
  require (port_valid dst_port)
  require (not (has_auth username) || ltb (length (creds username password)) 384)
  require (ltb (length (connect_text dst_host dst_port username password)) buf_size)
  send_all accepts (connect_text dst_host dst_port username password)
  resp ← read_head resp_size []
  check_status (status_of resp)
