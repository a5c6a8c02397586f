-- ===== src/Nft/Lines.antt =====
-- What daemon/src/nft.c gives to nft is always a single line.
use proxiflare.Prelude.{
  ℕ, zero, suc, ◌+◌, ◌/◌, ◌%◌, ◌≤◌, ◌≡◌, inl, inr, refl, ap, ◌∙◌, sym, Bool, true, false, not, ◌||◌,
  Option, none, some, List, [], ◌∷◌, ◌++◌, ◌==◌, Bytes, length, take, take-all, length-append,
  codes, contains_byte, arith, Bool-cases, ==_ne,
}
use mathlib.Core.List.{append_assoc, reverse}
use proxiflare.Chain.Http.{decimal_from}
use proxiflare.Nft.{
  NftTool, State, M, ◌>>=◌, ◌>>◌, number, collect, delete_command, nft_run, delete_all,
  delete_listed, delete_by_comment, then_run, dnat_command, dns_leak_protect, nat_chain,
  leak_comment,
}

-- A text that ends in a newline and has no other.
pub record IsLine (s : Bytes) : Type 0 where
  pub body : Bytes
  pub ends : s ≡ body ++ 10 ∷ []
  pub single : contains_byte 10 body ≡ false

abbrev pub All : (Bytes → Type 0) → List Bytes → Type 0
All P [] = Unit
All P (x ∷ xs) = P x × All P xs

contains_byte-append :
    (c : ℕ) (a b : Bytes) → contains_byte c (a ++ b) ≡ (contains_byte c a || contains_byte c b)
unfolding contains_byte
contains_byte-append c [] b = refl
contains_byte-append c (x ∷ a) b = ground (arith, contains_byte-append c a b)

IsLine-append : (a s : Bytes) → contains_byte 10 a ≡ false → IsLine s → IsLine (a ++ s)
IsLine-append a s n l = record {
  body = a ++ l.body;
  ends = ap (◌++◌ a) l.ends ∙ sym (append_assoc a l.body (10 ∷ []));
  single = rw (contains_byte-append 10 a l.body, n, l.single) refl;
}

IsLine-take : (n : ℕ) (s : Bytes) → length s ≤ n → IsLine s → IsLine (take n s)
IsLine-take n s le l = rw (take-all n s le) l

decimal_from-single :
    (fuel n : ℕ) (acc : Bytes)
    → contains_byte 10 acc ≡ false
    → (contains_byte 10 (decimal_from fuel n acc) ≡ false)
      × (length (decimal_from fuel n acc) ≤ fuel + length acc)
unfolding decimal_from contains_byte
decimal_from-single zero n acc h = (h, omega arith)
decimal_from-single (suc fuel) n acc h =
    let acc' = (b'0' + n % 10) ∷ acc in
    let h' : contains_byte 10 acc' ≡ false = rw (==_ne (b'0' + n % 10) 10 (omega arith)) h in
    let (one_line, short) = decimal_from-single fuel (n / 10) acc' h' in
    elim (Bool-cases (n / 10 == 0)) [
      | inl y ↦ rw y (h', omega arith)
      | inr more ↦ rw more (one_line, omega arith)
    ]

-- A number has ten digits at most.
number-single : (n : ℕ) → (contains_byte 10 (number n) ≡ false) × (length (number n) ≤ 10)
unfolding number contains_byte
number-single n = decimal_from-single 10 n [] refl

newline-IsLine : IsLine (10 ∷ [])
unfolding contains_byte
newline-IsLine = record { body = []; ends = refl; single = refl }

delete_command-IsLine :
    (at : Bytes) (handle : ℕ)
    → contains_byte 10 at ≡ false
    → length at ≤ 100
    → IsLine (delete_command at handle)
unfolding delete_command contains_byte
delete_command-IsLine at handle n le =
    let (digits, short) = number-single handle in
    let a = length-append at (codes " handle " ++ (number handle ++ codes "\n")) in
    let b = length-append (number handle) (codes "\n") in
    IsLine-take 255 _ (omega arith) (
      IsLine-append (codes "delete rule ") _ refl (
        IsLine-append at _ n (
          IsLine-append (codes " handle ") _ refl
            (IsLine-append (number handle) _ digits newline-IsLine))))

dnat_command-IsLine :
    (protocol server : Bytes)
    → contains_byte 10 protocol ≡ false
    → length protocol ≤ 3
    → contains_byte 10 server ≡ false
    → length server ≤ 45
    → IsLine (dnat_command protocol server)
unfolding dnat_command contains_byte
dnat_command-IsLine protocol server np lp ns ls =
    let tail_text = codes " comment \"pf_dns_leak\"\n" in
    let middle = codes " } counter dnat to " ++ (server ++ tail_text) in
    let rest = codes " dport 53 ip daddr != { 127.0.0.0/8, " ++ (server ++ middle) in
    let a = length-append protocol rest in
    let b = length-append server middle in
    let c = length-append server tail_text in
    IsLine-take 511 _ (omega arith) (
      IsLine-append
        (codes "add rule inet proxiflare output_nat socket cgroupv2 level 1 \"proxiflare\" ") _ refl
        (IsLine-append protocol _ np (
          IsLine-append (codes " dport 53 ip daddr != { 127.0.0.0/8, ") _ refl (
            IsLine-append server _ ns (
              IsLine-append (codes " } counter dnat to ") _ refl (
                IsLine-append server _ ns (record {
                  body = codes " comment \"pf_dns_leak\"";
                  ends = refl;
                  single = refl;
                })))))))

module _ {W : Type 0} (tool : NftTool W) where
  -- Code that keeps the commands single lines.
  abbrev KeepsLines : {A : Type 0} → M W A → Type 0
  KeepsLines m = (s : State W) → All IsLine s.sent → All IsLine (m s).1.sent

  run-lines : (cmd : Bytes) → IsLine cmd → KeepsLines (nft_run tool cmd)
  unfolding nft_run
  run-lines cmd l s h = (l, h)

  delete_all-lines :
      (at : Bytes) (hs : List ℕ)
      → contains_byte 10 at ≡ false
      → length at ≤ 100
      → KeepsLines (delete_all tool at hs)
  unfolding delete_all
  delete_all-lines at [] n le s h = h
  delete_all-lines at (x ∷ hs) n le s h =
      delete_all-lines at hs n le (nft_run tool (delete_command at x) s).1
        (run-lines (delete_command at x) (delete_command-IsLine at x n le) s h)

  delete_by_comment-lines :
      (at comment : Bytes)
      → contains_byte 10 at ≡ false
      → length at ≤ 100
      → KeepsLines (delete_by_comment tool at comment)
  unfolding delete_by_comment delete_listed
  delete_by_comment-lines at comment n le s h = listed (tool.lines_of _ s.world).0
    where
      listed :
          (o : Option (List Bytes))
          → All IsLine
              (delete_listed tool at comment o (record s {
                world =
                    (tool.lines_of
                      (take 255 (codes "nft -a list chain " ++ (at ++ codes " 2>/dev/null")))
                      s.world).1;
              })).1.sent
      listed none = h
      listed (some lines) = delete_all-lines at (reverse (collect 256 comment lines)) n le _ h

  then_run-lines : (cmd : Bytes) (b : Bool) → IsLine cmd → KeepsLines (then_run tool cmd b)
  then_run-lines cmd false l s h = h
  then_run-lines cmd true l s h = run-lines cmd l s h

  -- inet_pton takes only texts of at most 45 bytes without a newline.
  abbrev pub Literals : Type 0
  Literals = (t : Bytes) → tool.is_literal t ≡ true → (contains_byte 10 t ≡ false) × (length t ≤ 45)

  -- Whatever text is given as the DNS server, `pf_nft_dns_leak_protect` hands nft single lines alone,
  -- each with its only newline at its end; and if the text is empty or inet_pton takes it for no
  -- address, nothing at all is handed to nft, and the call fails.
  pub dns_leak_protect_lines :
      (server : Bytes) (s : State W)
      → Literals
      → All IsLine s.sent
      → All IsLine (dns_leak_protect tool server s).1.sent
        × ((length server == 0 || not (tool.is_literal server)) ≡ true
            → dns_leak_protect tool server s ≡ (false, s))
  unfolding dns_leak_protect contains_byte
  dns_leak_protect_lines server s literals h =
      elim (Bool-cases (length server == 0 || not (tool.is_literal server))) [
        | inl y ↦ rw y (h, λ _. refl)
        | inr n ↦ rw n (accepted n, λ e. cc)
      ]
    where
      accepted :
          (length server == 0 || not (tool.is_literal server)) ≡ false
          → All IsLine
              ((delete_by_comment tool nat_chain leak_comment
                  >> (nft_run tool (dnat_command (codes "udp") server)
                      >>= then_run tool (dnat_command (codes "tcp") server)))
                s).1.sent
      accepted n =
          let yes_literal : tool.is_literal server ≡ true = ground arith in
          let (single, short) = literals server yes_literal in
          let cleared = delete_by_comment tool nat_chain leak_comment s in
          let cleared_lines =
            delete_by_comment-lines nat_chain leak_comment refl (omega arith) s h in
          let udp = dnat_command (codes "udp") server in
          let tcp = dnat_command (codes "tcp") server in
          let sent_udp = nft_run tool udp cleared.1 in
          then_run-lines tcp sent_udp.0
            (dnat_command-IsLine (codes "tcp") server refl (omega arith) single short) sent_udp.1
            (run-lines udp
              (dnat_command-IsLine (codes "udp") server refl (omega arith) single short) cleared.1
              cleared_lines)
