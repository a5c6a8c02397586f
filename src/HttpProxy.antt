-- ===== src/HttpProxy.antt =====
-- daemon/src/proxy_http.c: `pf_http_connect`, the stand-alone HTTP CONNECT client. The encoder of the
-- credentials is OpenSSL's, a parameter. A request that does not fit fails, as in Chain/Http.antt, from
-- which the conversion `%d` and strstr are taken.
pub mod SameAsChain
use proxiflare.Prelude.{
  ℕ, zero, suc, ◌-◌, Bool, true, false, not, ◌||◌, Option, none, some, [], ◌∷◌, ◌++◌, ltb,
  if◌then◌else◌, Bytes, length, codes, split_at,
}
use mathlib.Core.Option
use proxiflare.Prelude.Int.{ℤ, pos, eqb_ℤ, atoi}
use proxiflare.Net.{Conn, M, ◌>>=◌, ◌>>◌, ret, abort, require, recv, send_all}
use proxiflare.Socks.{Tunnel, refused, close_on_failure, text, has_auth, port_valid, buf_size}
use proxiflare.Chain.Http.{decimal, has_head_end}

-- RESP_BUF_SIZE
abbrev pub resp_buf_size : ℕ
resp_buf_size = 4096

-- "%s:%d"
abbrev pub target : Bytes → ℕ → Bytes
target dst_host dst_port = dst_host ++ (b':' ∷ decimal dst_port)

-- "%s:%s"
abbrev pub credentials : Option Bytes → Option Bytes → Bytes
credentials username password = text username ++ (b':' ∷ text password)

-- The loop over recv(), with as many rounds as `resp` has bytes: each reads one at least.
unfoldable pub read_response : ℕ → Bytes → M Bytes
unfolding has_head_end
read_response zero resp = abort
read_response (suc fuel) resp = elim (ltb (length resp) (resp_buf_size - 1)) [
  | false ↦ abort
  | true ↦ do
    b ← recv (resp_buf_size - 1 - length resp)
    let rest = read_response fuel (resp ++ b)
    if has_head_end (resp ++ b) then ret (resp ++ b) else rest
]

-- strtol of what stands behind the first space.
unfoldable pub status_code : Bytes → Option ℤ
unfolding split_at atoi
status_code resp = Option.map atoi (split_at 32 resp).1

unfoldable pub accept_status : Option ℤ → M (Unit {0})
accept_status none = abort
accept_status (some code) =
    if eqb_ℤ code (pos 407) then abort else if not (eqb_ℤ code (pos 200)) then abort else ret tt

module _ (evp_encode_block : Bytes → Bytes) (accepts : ℕ → ℕ) where
  unfoldable pub request : Bytes → ℕ → Option Bytes → Option Bytes → Bytes
  unfolding decimal
  request dst_host dst_port username password =
      let auth =
        if has_auth username
        then codes "Proxy-Authorization: Basic "
          ++ (evp_encode_block (credentials username password) ++ codes "\r\n")
        else [] in
      codes "CONNECT "
      ++ (target dst_host dst_port
          ++ (codes " HTTP/1.1\r\nHost: "
              ++ (target dst_host dst_port ++ (codes "\r\n" ++ (auth ++ codes "\r\n")))))

  -- What follows `tcp_connect`. The sizes are those of `creds`, `b64` and `req`.
  unfoldable pub http_handshake : Bytes → ℕ → Option Bytes → Option Bytes → M (Unit {0})
  unfolding request read_response status_code accept_status
  http_handshake dst_host dst_port username password = do
    require (not (has_auth username) || ltb (length (credentials username password)) 386)
    require (
        not (has_auth username)
        || ltb (length (evp_encode_block (credentials username password))) 512)
    require (ltb (length (request dst_host dst_port username password)) buf_size)
    send_all accepts (request dst_host dst_port username password)
    resp ← read_response resp_buf_size []
    accept_status (status_code resp)

  -- `pf_http_connect`; `dial` is the result of `tcp_connect` to the proxy.
  unfoldable pub http_connect : Option Conn → Bytes → ℕ → Option Bytes → Option Bytes → Tunnel
  unfolding http_handshake
  http_connect dial dst_host dst_port username password =
      if not (port_valid dst_port) then refused else elim dial [
        | none ↦ refused
        | some c ↦ close_on_failure (http_handshake dst_host dst_port username password c)
      ]
