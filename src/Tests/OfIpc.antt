-- ===== src/Tests/OfIpc.antt =====
-- The control socket, and the log that it shows.
use proxiflare.Prelude.{
  ℕ, ◌+◌, ◌*◌, ◌≡◌, ◌≢◌, refl, true, false, none, some, List, [], ◌∷◌, ◌++◌, ◌==◌, if◌then◌else◌,
  Bytes, codes, length, contains_byte, Bool-cases, inl, inr, arith,
}
use proxiflare.Prelude.Int.{pos}
use proxiflare.Log.{Event, empty_log, recent}
use proxiflare.Log.Refine.{newer, logged, kept, recent-logged}
use proxiflare.Ipc.{Ipc, init, Peer, accept, Write, wrote, would_block, looping, send}
use proxiflare.Ipc.Protocol.{Service, Session, process_lines}
use proxiflare.Ipc.Clients.{IsOrderly, start, next, accepts, Reach-IsOrderly}
use proxiflare.Ipc.Framing.{feed, serve_all, feed-stream}
use proxiflare.Ipc.Send.{Progresses, send-ends}

abbrev event : Event
event = record {
  app = codes "firefox";
  rule = codes "all";
  proxy = codes "direct";
  proxy_id = 0;
  domain = [];
  dst_ip = codes "10.0.0.9";
  dst_port = 443;
  action = codes "DIRECT";
  success = true;
}

recent-logged_example :
    recent (logged empty_log (event ∷ event ∷ [])) (pos 1)
    ≡ newer (pos 1) (kept 0 [] (event ∷ event ∷ []))
recent-logged_example = recent-logged (event ∷ event ∷ []) (pos 1) (omega arith)

-- Requests that are the name of their method.
abbrev service : Service Bytes ℕ
service = record {
  parse = λ line. some line;
  id_of = λ req. none;
  method_of = λ req. some req;
  params_of = λ req. none;
  has_handler = true;
  handler = λ method params n. (some method, n + 1);
}

abbrev session : Session service
session = record { log_on = false; stats_on = false; daemon = 0; sent = [] }

abbrev requests : List Bytes
requests = codes "log.subscribe" ∷ codes "status" ∷ []

abbrev chunks : List Bytes
chunks =
    codes "log.sub" ∷ (codes "scribe" ++ 10 ∷ codes "sta") ∷ (codes "tus" ++ 10 ∷ codes "st") ∷ []

feed-stream_example :
    feed service chunks [] session ≡ (serve_all service requests session, codes "st")
unfolding process_lines contains_byte
feed-stream_example =
    feed-stream service requests chunks (codes "st") session (refl, (refl, tt)) refl refl
      ((omega arith), ((omega arith), ((omega arith), tt)))

abbrev user : Peer
user = record { cfd = 5; uid = some 1000; nonblock = true }

abbrev one_client : Ipc
unfolding accept
one_client = (accept init (some user)).1

Reach-IsOrderly_example : IsOrderly one_client
unfolding one_client
Reach-IsOrderly_example = Reach-IsOrderly service (next start (accepts (some user) refl))

-- Every second attempt finds the buffer full.
abbrev slowly : ℕ → Write
slowly i = if i == 1 then would_block else wrote 3

slowly-Progresses : (j : ℕ) → Progresses (slowly j)
slowly-Progresses j = elim (Bool-cases (j == 1)) [ inl e ↦ rw e tt | inr e ↦ rw e (omega arith) ]

send-ends_example : send slowly ((length (codes "hello") + 1) * 51) (codes "hello") ≢ looping
send-ends_example = send-ends slowly (codes "hello") slowly-Progresses
