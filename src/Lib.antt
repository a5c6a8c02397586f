-- ===== src/Lib.antt =====
-- ProxiFlare, daemon/: a Linux daemon that steers the connections of applications through proxies.
-- The parts that are modelled, and how they work together:
--
-- * A connection that the daemon intercepts is looked up in the rules. Rules/Match.antt has the
--   pattern matchers of daemon/src/rules.c (`pf_match_domain`, `pf_match_app`, `pf_match_ip`,
--   `pf_match_port`), Rules.antt the searches `pf_rules_match` and `pf_rules_match_app_any` over the
--   loaded rules. fnmatch, inet_pton and basename are parameters (Libc.antt).
-- * For TLS the domain of that query comes from the ClientHello: Sni.antt is `pf_sni_extract` of
--   daemon/src/sni.c, function by function of its offsets, over the reading macros in
--   Sni/Reader.antt. Sni/Wire.antt describes the record independently.
-- * A connection that nftables redirects is accepted by daemon/src/tproxy.c or by the accept thread of
--   daemon/src/main.c: Tproxy.antt, with the table of connections, and Tproxy/Relay.antt. Where it
--   goes is decided by `proxy_connect_for_tproxy` of main.c, which is Route.antt; the database and the
--   connectors are records of functions (`Config`, `Connectors`) that it takes as arguments. Each
--   decision leaves an entry in the ring of Log.antt, which "log.recent" reads.
-- * The front end speaks to the daemon over the socket of daemon/src/ipc.c: Ipc.antt, with the
--   requests in Ipc/Protocol.antt. cJSON and the
--   command handler are the record `Service`.
-- * Crypto.antt is daemon/src/crypto.c, over a record of what it calls of OpenSSL and libargon2.
-- * The stand-alone HTTP CONNECT client of daemon/src/proxy_http.c is HttpProxy.antt. DnsResolver.antt
--   is the forwarder of daemon/src/dns_resolver.c, with its cache of answers; the exchange with the
--   DoH server is an argument. Mitm.antt is the cache of certificates of daemon/src/mitm.c.
-- * A rule that names a chain leads to `pf_chain_connect` (daemon/src/chain.c): Chain.antt, with the
--   HTTP CONNECT client in Chain/Http.antt and the SOCKS clients (daemon/src/proxy_socks.c) in
--   Socks.antt. They speak over a socket through `send_all` and `recv_all`, which are Net.antt.
--   Socks/Wire.antt describes the messages independently.
-- * What the relay threads capture goes to a worker through daemon/src/capture_queue.c:
--   CaptureQueue.antt. Inspect.antt is the producer `on_inspect_data` of main.c with its filters,
--   CaptureWorker.antt the loop of daemon/src/capture_worker.c that empties the ring.
-- * The worker parses what it takes out with daemon/src/http_parser.c: HttpMessage.antt. The bytes of
--   a request on the wire are in HttpMessage/Lines.antt. BodyDecode.antt chooses the decoder of a body
--   (daemon/src/body_decode.c).
-- * Dns.antt is the query-name parser of daemon/src/dns.c and its cache, which maps an address to the
--   domain and the rule that it was resolved for. Dns/Callback.antt is `dns_callback`, which fills it
--   from queued packets; Dns/Wire.antt describes these independently. The time is an argument.
-- * SshPool.antt is the pool of SSH sessions of daemon/src/proxy_ssh.c. Nft.antt is daemon/src/nft.c:
--   the commands that mark and redirect traffic, and their removal. Cgroup.antt is
--   daemon/src/cgroup.c. libssh2, nft, the shell and the file system are the records `Ssh`,
--   `NftTool` and `Files`, over a world that their calls change; the pool keeps a log of what is
--   opened and closed, and the commands for nft are recorded.
-- * Stats.antt is the table of counters of daemon/src/stats.c.
-- * Types.antt has the shared enumerations and structures of daemon/include/proxiflare.h,
--   Types/Names.antt their names in daemon/src/main.c.
-- * Prelude.antt and its children hold what all share: Boolean tests, lists, slices, texts and C's
--   `int`.
--
-- State and errors. A function that mutates a structure returns the new one; what it frees is a part
-- of its result. A socket step is a function from a socket to a result and a socket (`M` in
-- Net.antt): how much a send() takes and how recv() cuts the stream is given by the socket and by
-- `accepts`, and any failure is `fail`. C strings are their bytes before the NUL, buffers their
-- bytes; machine integers wrap where they are written so (`% 2 ^ 32`, `% 2 ^ 64`).
--
-- Loops. `recv_loop` and `send_loop` run on fuel equal to the number of bytes, since every round
-- moves a byte at least; `ext_loop` has a round more than the packet has bytes, since every round
-- moves on by four at least, and so has `qname_loop`; `headers_loop` has as many as there are bytes;
-- `write_loop` runs on the bytes to write and `lines_loop` on the bytes in the buffer, since a round
-- takes one at least; the loop of `pf_ipc_send` runs on fuel, with `looping` for its end.
-- `key_loop` has a round for each byte of the query, the probes of Mitm.antt have 16 as in the source.
-- `close_loop` has a round for each slot of the ring, `read_head` and `read_response` one for each
-- byte of their buffers.
-- `owner_loop` has a round more than the packet has bytes and `token_loop` one for each byte of its
-- text, since a round takes one at least; `answers` counts the records; `drain_all` runs on fuel, with
-- `none` for its end.
--
-- Threads. A function that a mutex guards is one step. Two parts are shared without a lock: the ring
-- of the log, and the table of connections between the relay, which the main loop calls, and the
-- accept threads. Their operations are single steps as well, so that the runs of the model are those
-- in which no two of them overlap.
--
-- Not modelled: the front end, the JSON library, the database, OpenSSL, libargon2 and
-- netlink (I/O and calls of libraries), the event loop and its command handlers (save "log.recent"), the
-- log messages, and NULL arguments where a caller never passes them.
pub mod Prelude
pub mod Types
pub mod Libc
pub mod Rules
pub mod Net
pub mod Socks
pub mod Chain
pub mod Sni
pub mod CaptureQueue
pub mod Stats
pub mod Dns
pub mod HttpMessage
mod Tests
pub mod Log
pub mod Route
pub mod Tproxy
pub mod Ipc
pub mod Crypto
pub mod Mitm
pub mod BodyDecode
pub mod Inspect
pub mod DnsResolver
pub mod HttpProxy
pub mod SshPool
pub mod Nft
pub mod CaptureWorker
pub mod Cgroup
