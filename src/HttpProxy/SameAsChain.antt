-- ===== src/HttpProxy/SameAsChain.antt =====
-- The two HTTP CONNECT clients, of proxy_http.c and of chain.c.
use proxiflare.Prelude.{ℕ, ◌≡◌, Option, [], ltb, Bytes, length}
use mathlib.Core.Option
use proxiflare.Net.{M, ◌>>=◌, ◌>>◌, require, send_all}
use proxiflare.Socks.{buf_size}
use proxiflare.Chain.Http.{base64, read_head, resp_size, status_of, check_status}
use proxiflare.HttpProxy.{request}

module _ (evp_encode_block : Bytes → Bytes)
    (is_base64 : (s : Bytes) → evp_encode_block s ≡ base64 s) (accepts : ℕ → ℕ) where
  -- What both clients do with a request.
  exchange : Bytes → M (Unit {0})
  exchange request =
      require (ltb (length request) buf_size)
      >> (send_all accepts request
          >> (read_head resp_size [] >>= λ resp. check_status (status_of resp)))
