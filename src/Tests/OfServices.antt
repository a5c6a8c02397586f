-- ===== src/Tests/OfServices.antt =====
-- The pool of SSH sessions and the commands for nft, over tools that are given by functions.
use proxiflare.Prelude.{
  ℕ, ◌≡◌, refl, true, false, Option, none, some, List, [], ◌∷◌, ◌++◌, ◌==◌, not, ◌||◌, Bytes, codes,
  length, arith, contains_byte, map, take, ◌&&◌, suc,
}
use proxiflare.Prelude.Int.{atoi}
use proxiflare.Types.{ssh}
use proxiflare.SshPool.{Ssh, SshProxy, Handle, pool_init, Pool, State, ssh_connect, pool_close}
use proxiflare.SshPool.Owned.{opens, closes}
use proxiflare.SshPool.Settled.{start, connects, IsSettled, Reach-IsSettled}
use proxiflare.Nft
use proxiflare.Nft.{
  NftTool, number, strstr, delete_command, dns_leak_protect, remove_cgroup_mark, handle_mark,
  cgroup_comment,
}
use proxiflare.Nft.Lines.{IsLine, All, dns_leak_protect_lines}
use proxiflare.Nft.Removed.{
  output_chain, Lists, mark_of, deletion, remove_cgroup_mark_sent, remove_cgroup_mark_longer,
}
use proxiflare.Cgroup.{has_token}
use proxiflare.Cgroup.Tokens.{listing, any_is, has_token-listing}

-- A server that lets everyone in; the world counts what was opened.
abbrev willing : Ssh ℕ
willing = record {
  getaddrinfo = λ host port n. (some (1 ∷ []), n);
  socket = λ a n. (some n, suc n);
  connect = λ fd a n. (true, n);
  session_init = λ n. (some n, suc n);
  session_handshake = λ s fd n. (true, n);
  userauth_password = λ s user password n. (true, n);
  userauth_publickey = λ s user path n. (true, n);
  channel_direct_tcpip = λ s host port n. (none, n);
  channel_free = λ c n. n;
}

abbrev bastion : SshProxy
bastion = record {
  proxy = record {
    id = 4;
    name = codes "bastion";
    type = ssh;
    host = codes "b.ch";
    port = 22;
    username = [];
    password = codes "x";
    enabled = true;
  };
  ssh_key_path = [];
}

abbrev run : (Pool × Option ℕ) × State ℕ
unfolding ssh_connect
run = ssh_connect willing pool_init bastion (codes "a.ch") 443 (record { world = 3; log = [] })

Reach-IsSettled_example :
    IsSettled run.0.0 run.1
    × ((h : Handle)
        → let after = (pool_close willing run.0.0 run.1).1.log in opens h after ≡ closes h after)
unfolding run
Reach-IsSettled_example = Reach-IsSettled (connects bastion (codes "a.ch") 443 (start 3))

abbrev mark_line : Bytes
mark_line = codes "meta mark set 0x1 comment \"pf_cgroup_12\" # handle 7"

abbrev one_rule : NftTool ℕ
one_rule = record {
  run = λ cmd n. (true, suc n);
  lines_of = λ cmd n. (some (mark_line ∷ []), n);
  system = λ cmd n. (true, n);
  mkdir = λ path n. n;
  is_literal = λ t. length t == 7 && not (contains_byte 10 t);
}

abbrev idle : Nft.State ℕ
idle = record { world = 0; sent = [] }

dns_leak_protect_lines_example :
    All IsLine (dns_leak_protect one_rule (codes "1.1.1.1") idle).1.sent
    × ((length (codes "1.1.1.1") == 0 || not (one_rule.is_literal (codes "1.1.1.1"))) ≡ true
        → dns_leak_protect one_rule (codes "1.1.1.1") idle ≡ (false, idle))
dns_leak_protect_lines_example =
    dns_leak_protect_lines one_rule (codes "1.1.1.1") idle (λ t h. ground arith) tt

remove_cgroup_mark_sent_example :
    (hs : List ℕ) × Lists (mark_of 12) (mark_line ∷ []) hs
    × ((remove_cgroup_mark one_rule 12 idle).1.sent ≡ map deletion (take 256 hs) ++ [])
remove_cgroup_mark_sent_example = remove_cgroup_mark_sent one_rule 12 (mark_line ∷ []) idle refl

remove_cgroup_mark_longer_example :
    (remove_cgroup_mark one_rule 1 idle).1.sent ≡ delete_command output_chain 7 ∷ []
unfolding cgroup_comment strstr atoi
remove_cgroup_mark_longer_example =
    remove_cgroup_mark_longer one_rule 1 (codes "2") (codes "meta mark set 0x1 comment \"")
      (codes "\" # handle 7") (codes "# handle 7") 7 idle refl refl refl

has_token-listing_example :
    has_token (codes "12") (listing (codes "123" ∷ codes "12" ∷ []))
    ≡ any_is (codes "12") (codes "123" ∷ codes "12" ∷ [])
unfolding contains_byte
has_token-listing_example =
    has_token-listing (codes "12") (codes "123" ∷ codes "12" ∷ []) (refl, (refl, tt))
