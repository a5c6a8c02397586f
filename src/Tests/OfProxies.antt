-- ===== src/Tests/OfProxies.antt =====
-- The loops of the socket, and the handshakes, with a proxy that answers in small pieces.

use proxiflare.Prelude.{
  ℕ, ◌<◌, ◌≡◌, refl, true, Option, none, some, List, [], ◌∷◌, ◌++◌, Bytes, codes, arith,
  if◌then◌else◌, ◌==◌,
}
use proxiflare.Types.{Proxy, socks4, socks5, ssh, Chain}
use proxiflare.Net.{Conn, recv_all, send_all}
use proxiflare.Net.Loops.{Reads, Sends, recv_all-Reads, send_all-Sends}
use proxiflare.Net.Done.{Done}
use proxiflare.Socks.{refused, socks5_handshake}
use proxiflare.Socks.Wire.{Reply, anonymous, password, ip4, greeting, login_sent, connect_request}
use proxiflare.Socks.Open.{socks5_handshake-Done}
use proxiflare.Chain.{hop_proxies, chain_connect}
use proxiflare.Chain.Http.{decimal, base64}
use proxiflare.Chain.Open.{Answer, five, four, Opened, all_said, chain_connect-Opened}

-- send() takes two bytes at most.
abbrev pairs : ℕ → ℕ
pairs i = 2

pairs_send : (i : ℕ) → 0 < pairs i
pairs_send i = omega arith

abbrev port_bytes : Bytes
port_bytes = 10 ∷ 0 ∷ 0 ∷ 1 ∷ 31 ∷ 144 ∷ []

abbrev granted : Reply
granted = record { login = password 1; version = 5; reserved = 0; bound = ip4 port_bytes }

abbrev open_reply : Reply
open_reply = record granted { login = anonymous }

-- The answers of `granted`, cut anyhow, and the first bytes of the tunnel.
abbrev cut : Conn
cut = record {
  rx =
      (5 ∷ [])
      ∷ (2 ∷ 1 ∷ [])
      ∷ (0 ∷ 5 ∷ 0 ∷ 0 ∷ 1 ∷ 10 ∷ [])
      ∷ (0 ∷ 0 ∷ 1 ∷ 31 ∷ 144 ∷ 72 ∷ [])
      ∷ (73 ∷ [])
      ∷ [];
  sends = 0;
  sent = [];
}

base64_foob : base64 (codes "foob") ≡ codes "Zm9vYg=="
unfolding base64
base64_foob = refl

decimal_8080 : decimal 8080 ≡ codes "8080"
unfolding decimal
decimal_8080 = refl

recv_all-Reads_example :
    Reads cut (recv_all 2 cut) (5 ∷ 2 ∷ []) (1 ∷ 0 ∷ 5 ∷ 0 ∷ 0 ∷ 1 ∷ (port_bytes ++ (72 ∷ 73 ∷ [])))
recv_all-Reads_example =
    recv_all-Reads 2 cut (5 ∷ 2 ∷ []) (1 ∷ 0 ∷ 5 ∷ 0 ∷ 0 ∷ 1 ∷ (port_bytes ++ (72 ∷ 73 ∷ []))) refl
      refl

send_all-Sends_example : Sends cut (send_all pairs (codes "hello") cut) (codes "hello")
send_all-Sends_example = send_all-Sends pairs (codes "hello") cut pairs_send

-- The third send() fails.
abbrev failing : ℕ → ℕ
failing i = if i == 2 then 0 else 2

abbrev user : Option Bytes
user = some (codes "bob")

abbrev pass : Option Bytes
pass = some (codes "pw")

socks5_handshake-Done_example :
    Done
      (socks5_handshake pairs (codes "a.ch") 443 user pass)
      cut
      tt
      (greeting user ++ (login_sent user pass (password 1) ++ connect_request (codes "a.ch") 443))
      (72 ∷ 73 ∷ [])
socks5_handshake-Done_example =
    socks5_handshake-Done pairs pairs_send user pass (codes "a.ch") 443 granted (72 ∷ 73 ∷ []) cut
      (omega arith, omega arith) (λ e. cc) (omega arith) (omega arith) refl refl

abbrev cut4 : Conn
cut4 = record { rx = (0 ∷ []) ∷ (90 ∷ 1 ∷ 2 ∷ 3 ∷ 4 ∷ 5 ∷ 6 ∷ 72 ∷ []) ∷ []; sends = 0; sent = [] }

abbrev entry : Proxy
entry = record {
  id = 3;
  name = codes "in";
  type = socks5;
  host = codes "p1";
  port = 1080;
  username = codes "bob";
  password = codes "pw";
  enabled = true;
}

abbrev exit : Proxy
exit = record {
  id = 4;
  name = codes "out";
  type = socks4;
  host = codes "p2";
  port = 1081;
  username = [];
  password = [];
  enabled = true;
}

abbrev proxies : List Proxy
proxies = exit ∷ entry ∷ []

abbrev chain : Chain
chain = record { id = 1; name = codes "both"; hops = 3 ∷ 4 ∷ []; enabled = true }

-- Both hops' answers, and the tunnel's first byte.
abbrev both : Conn
both = record {
  rx =
      (5 ∷ 2 ∷ 1 ∷ 0 ∷ 5 ∷ 0 ∷ 0 ∷ 1 ∷ port_bytes)
      ∷ (0 ∷ 90 ∷ 1 ∷ 2 ∷ 3 ∷ 4 ∷ 5 ∷ 6 ∷ 72 ∷ [])
      ∷ [];
  sends = 0;
  sent = [];
}

abbrev answers : List Answer
answers = five granted ∷ four 0 (1 ∷ 2 ∷ 3 ∷ 4 ∷ 5 ∷ 6 ∷ []) ∷ []

-- A dialler that knows the first proxy alone.
abbrev dial : Bytes → ℕ → Option Conn
dial host port = if port == 1080 then some both else none

found : hop_proxies proxies (3 ∷ 4 ∷ []) ≡ some (entry ∷ exit ∷ [])
unfolding hop_proxies
found = refl

ssh_refused :
    chain_connect pairs dial chain (exit ∷ record entry { type = ssh } ∷ []) (codes "a.ch") 443
    ≡ refused
unfolding chain_connect
ssh_refused = refl

chain_connect-Opened_example :
    Opened
      (chain_connect pairs dial chain proxies (codes "a.ch") 443)
      both
      (all_said entry (exit ∷ []) answers (codes "a.ch") 443)
      (72 ∷ [])
chain_connect-Opened_example =
    chain_connect-Opened pairs pairs_send dial chain proxies entry (exit ∷ []) answers
      (codes "a.ch") 443 (72 ∷ []) both (omega arith, omega arith) (omega arith, omega arith) found
      (
        ((omega arith, (omega arith, omega arith), (λ e. cc), refl), (omega arith, omega arith)),
        ((refl, omega arith), (omega arith, omega arith)),
      )
      refl refl
