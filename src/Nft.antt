-- ===== src/Nft.antt =====
-- daemon/src/nft.c: the commands that the daemon gives to nft, and the rules that it removes by their
-- comment. What nft and the shell answer is the record `NftTool`, over a world that they change;
-- the texts that `nft -f -` reads are recorded, the latest first. Ids, ports and handles are not
-- negative.
pub mod Lines
pub mod Removed
use proxiflare.Prelude.{
  ℕ, zero, suc, Bool, true, false, not, ◌&&◌, ◌||◌, Option, none, some, List, [], ◌∷◌, ◌++◌, ◌==◌,
  ltb, if◌then◌else◌, Bytes, length, take, drop, codes,
}
use mathlib.Core.List.{reverse}
use proxiflare.Prelude.Int.{ℤ, pos, negsuc, atoi}
use proxiflare.Chain.Http.{decimal_from}

pub record NftTool (W : Type 0) : Type 0 where
  -- popen("nft -f -"), fputs and pclose: did all succeed?
  pub run : Bytes → W → Bool × W
  -- popen of a listing, and its lines as fgets delivers them; `none` if popen fails
  pub lines_of : Bytes → W → Option (List Bytes) × W
  -- system(cmd) == 0
  pub system : Bytes → W → Bool × W
  pub mkdir : Bytes → W → W
  -- inet_pton for AF_INET or AF_INET6 takes it
  pub is_literal : Bytes → Bool

pub record State (W : Type 0) : Type 0 where
  pub world : W
  pub sent : List Bytes

abbrev pub M : Type 0 → Type 0 → Type 0
M W A = State W → A × State W

infixl 5 ◌>>=◌ ◌>>◌
abbrev pub ◌>>=◌ : {W A B : Type 0} → M W A → (A → M W B) → M W B
◌>>=◌ m f s = let (a, s') = m s in f a s'

abbrev pub ◌>>◌ : {W A B : Type 0} → M W A → M W B → M W B
m >> k = m >>= λ _. k

abbrev pub ret : {W A : Type 0} → A → M W A
ret a s = (a, s)

-- `%d`
unfoldable pub number : ℕ → Bytes
unfolding decimal_from
number n = decimal_from 10 n []

unfoldable pub has_prefix : Bytes → Bytes → Bool
has_prefix [] s = true
has_prefix (x ∷ p) [] = false
has_prefix (x ∷ p) (y ∷ s) = x == y && has_prefix p s

-- strstr: what stands from the first occurrence on.
unfoldable pub strstr : Bytes → Bytes → Option Bytes
unfolding has_prefix
strstr [] p = if has_prefix p [] then some [] else none
strstr (x ∷ s) p = let rest = strstr s p in if has_prefix p (x ∷ s) then some (x ∷ s) else rest

-- "# handle "
abbrev pub handle_mark : Bytes
handle_mark = codes "# handle "

abbrev pub positive : ℤ → Option ℕ
positive (pos zero) = none
positive (pos (suc n)) = some (suc n)
positive (negsuc n) = none

-- The handle of a line with the comment.
unfoldable pub handle_in : Bytes → Bytes → Option ℕ
unfolding strstr atoi
handle_in comment line = elim (strstr line comment) [
  | none ↦ none
  | some _ ↦ elim (strstr line handle_mark) [ none ↦ none | some h ↦ positive (atoi (drop 9 h)) ]
]

-- The loop over the lines, with the room left in `handles`.
unfoldable pub collect : ℕ → Bytes → List Bytes → List ℕ
unfolding handle_in
collect zero comment lines = []
collect (suc room) comment [] = []
collect (suc room) comment (line ∷ lines) = elim (handle_in comment line) [
  | none ↦ collect (suc room) comment lines
  | some h ↦ h ∷ collect room comment lines
]

-- `table_type table chain`
abbrev pub place : Bytes → Bytes → Bytes → Bytes
place table_type table chain = table_type ++ (b' ' ∷ (table ++ (b' ' ∷ chain)))

unfoldable pub delete_command : Bytes → ℕ → Bytes
unfolding number
delete_command at handle =
    take 255 (codes "delete rule " ++ (at ++ (codes " handle " ++ (number handle ++ codes "\n"))))

-- "pf_cgroup_%d"
unfoldable pub cgroup_comment : ℕ → Bytes
unfolding number
cgroup_comment rule_id = take 63 (codes "pf_cgroup_" ++ number rule_id)

abbrev pub nat_chain : Bytes
nat_chain = place (codes "inet") (codes "proxiflare") (codes "output_nat")

abbrev pub filter_chain : Bytes
filter_chain = place (codes "inet") (codes "proxiflare") (codes "output_filter")

abbrev pub leak_comment : Bytes
leak_comment = codes "pf_dns_leak"

-- The rule for "udp" or "tcp".
unfoldable pub dnat_command : Bytes → Bytes → Bytes
dnat_command protocol server = take 511 (
    codes "add rule inet proxiflare output_nat socket cgroupv2 level 1 \"proxiflare\" "
    ++ (protocol
        ++ (codes " dport 53 ip daddr != { 127.0.0.0/8, "
            ++ (server
                ++ (codes " } counter dnat to "
                    ++ (server ++ codes " comment \"pf_dns_leak\"\n"))))))

unfoldable pub redirect_command : Bytes → ℕ → Bytes
unfolding number
redirect_command protocol local_port = take 511 (
    codes "add rule inet proxiflare output_nat socket cgroupv2 level 1 \"proxiflare\" "
    ++ (protocol
        ++ (codes " dport 53 ip daddr != 127.0.0.0/8 counter redirect to :"
            ++ (number local_port ++ codes " comment \"pf_dns_leak\"\n"))))

abbrev main_table : Bytes
main_table =
    codes "table inet proxiflare {\n    chain output {\n"
    ++ (codes "        type route hook output priority 0; policy accept;\n    }\n"
        ++ (codes
              "    chain output_nat {\n        type nat hook output priority -100; policy accept;\n    }\n"
            ++ (codes "    chain output_filter {\n"
                ++ codes "        type filter hook output priority 0; policy accept;\n    }\n}\n")))

abbrev tproxy_table : Bytes
tproxy_table =
    codes "table ip proxiflare_tproxy {\n    chain prerouting {\n"
    ++ codes "        type filter hook prerouting priority mangle; policy accept;\n    }\n}\n"

module _ {W : Type 0} (tool : NftTool W) where
  unfoldable pub nft_run : Bytes → M W Bool
  nft_run cmd s =
      let (ok, w) = tool.run cmd s.world in (ok, record { world = w; sent = cmd ∷ s.sent })

  unfoldable pub run_cmd : Bytes → M W Bool
  run_cmd cmd s = let (ok, w) = tool.system cmd s.world in (ok, record s { world = w })

  unfoldable pub delete_all : Bytes → List ℕ → M W (Unit {0})
  unfolding nft_run delete_command
  delete_all at [] = ret tt
  delete_all at (h ∷ hs) = nft_run (delete_command at h) >> delete_all at hs

  unfoldable pub delete_listed : Bytes → Bytes → Option (List Bytes) → M W Bool
  unfolding collect delete_all
  delete_listed at comment none = ret false
  delete_listed at comment (some lines) =
      delete_all at (reverse (collect 256 comment lines)) >> ret true

  -- `at` is the table and the chain.
  unfoldable pub delete_by_comment : Bytes → Bytes → M W Bool
  unfolding delete_listed
  delete_by_comment at comment s =
      let (lines, w) =
        tool.lines_of (take 255 (codes "nft -a list chain " ++ (at ++ codes " 2>/dev/null")))
          s.world in
      delete_listed at comment lines (record s { world = w })

  -- A second command only if the first succeeds.
  abbrev pub then_run : Bytes → Bool → M W Bool
  then_run cmd false = ret false
  then_run cmd true = nft_run cmd

  unfoldable pub setup_tproxy : ℕ → M W Bool
  unfolding nft_run number
  setup_tproxy port = nft_run (
      take 255 (
        codes
          "add rule ip proxiflare_tproxy prerouting ip protocol tcp meta mark 1 tproxy to 127.0.0.1:"
        ++ (number port ++ codes "\n")))

  unfoldable pub setup_dns_redirect : M W Bool
  unfolding nft_run
  setup_dns_redirect = nft_run (
      codes
        "add rule inet proxiflare output socket cgroupv2 level 1 \"proxiflare\" udp dport 53 queue num 0 bypass comment \"pf_dns_nfqueue\"\n")

  unfoldable pub add_cgroup_mark : ℕ → M W Bool
  unfolding nft_run number
  add_cgroup_mark rule_id s =
      let w =
        tool.mkdir (take 255 (codes "/sys/fs/cgroup/proxiflare/rule_" ++ number rule_id)) s.world in
      nft_run
        (take 511 (
          codes "add rule inet proxiflare output socket cgroupv2 level 2 \"proxiflare/rule_"
          ++ (number rule_id
              ++ (codes "\" meta l4proto tcp meta mark set 1 comment \"pf_cgroup_"
                  ++ (number rule_id ++ codes "\"\n")))))
        (record s { world = w })

  unfoldable pub remove_cgroup_mark : ℕ → M W Bool
  unfolding delete_by_comment cgroup_comment
  remove_cgroup_mark rule_id =
      delete_by_comment (place (codes "inet") (codes "proxiflare") (codes "output"))
        (cgroup_comment rule_id)

  unfoldable pub dns_leak_protect : Bytes → M W Bool
  unfolding nft_run delete_by_comment dnat_command
  dns_leak_protect server =
      if length server == 0 || not (tool.is_literal server)
      then ret false
      else delete_by_comment nat_chain leak_comment
        >> (nft_run (dnat_command (codes "udp") server)
            >>= then_run (dnat_command (codes "tcp") server))

  unfoldable pub dns_via_proxy : ℕ → M W Bool
  unfolding nft_run delete_by_comment redirect_command
  dns_via_proxy local_port =
      if local_port == 0 || ltb 65535 local_port
      then ret false
      else delete_by_comment nat_chain leak_comment
        >> (nft_run (redirect_command (codes "udp") local_port)
            >>= then_run (redirect_command (codes "tcp") local_port))

  unfoldable pub dns_leak_disable : M W Bool
  unfolding delete_by_comment
  dns_leak_disable = delete_by_comment nat_chain leak_comment >> ret true

  unfoldable pub block_quic : M W Bool
  unfolding nft_run delete_by_comment
  block_quic =
      delete_by_comment filter_chain (codes "pf_block_quic")
      >> nft_run (
          codes
            "add rule inet proxiflare output_filter socket cgroupv2 level 1 \"proxiflare\" meta l4proto udp udp dport 443 counter reject with icmpx type admin-prohibited comment \"pf_block_quic\"\n")

  unfoldable pub unblock_quic : M W Bool
  unfolding delete_by_comment
  unblock_quic = delete_by_comment filter_chain (codes "pf_block_quic") >> ret true

  abbrev remove_tables : M W Bool
  remove_tables =
      nft_run (codes "delete table inet proxiflare\n")
      >> nft_run (codes "delete table ip proxiflare_tproxy\n")

  abbrev remove_routes : M W Bool
  remove_routes =
      run_cmd (codes "ip rule del fwmark 1 lookup 100 2>/dev/null")
      >> run_cmd (codes "ip route del local 0.0.0.0/0 dev lo table 100 2>/dev/null")

  -- What is behind the first table; only its failure is fatal.
  unfoldable pub set_up : Bool → M W Bool
  unfolding nft_run run_cmd
  set_up false = ret false
  set_up true =
      nft_run tproxy_table
      >> (remove_routes
          >> (run_cmd (codes "ip rule add fwmark 1 lookup 100")
              >> (run_cmd (codes "ip route add local 0.0.0.0/0 dev lo table 100") >> ret true)))

  unfoldable pub nft_init : M W Bool
  unfolding nft_run set_up
  nft_init = remove_tables >> (nft_run main_table >>= set_up)

  unfoldable pub nft_cleanup : M W Bool
  unfolding nft_run run_cmd
  nft_cleanup = remove_tables >> (remove_routes >> ret true)
