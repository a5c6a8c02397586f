-- ===== src/Rules/Match.antt =====
-- daemon/src/rules.c: the pattern matchers `pf_match_domain`, `pf_match_app`, `pf_match_ip` and
-- `pf_match_port`, on arguments that are not NULL.
use proxiflare.Prelude.{
  ℕ, zero, suc, ◌+◌, ◌-◌, ◌*◌, ◌/◌, ◌^◌, Bool, true, false, not, ◌&&◌, ◌||◌, Option, none, some,
  List, [], ◌∷◌, ◌==◌, ltb, leb, if◌then◌else◌, Bytes, length, get_or, take, drop, bytes_eq, eq_ci,
  contains_byte, split_at,
}
use proxiflare.Prelude.Int.{ℤ, pos, leb_ℤ, eqb_ℤ, atoi, pos_part}
use proxiflare.Libc.{Libc}

-- PF_DOMAIN_MAX, PF_PATH_MAX
abbrev pub domain_max : ℕ
domain_max = 253

abbrev pub path_max : ℕ
path_max = 4096

-- `for (i = 0; i <= dlen - nlen; i++)`, with the rounds left first.
unfoldable pub search_needle : ℕ → ℕ → Bytes → Bytes → Bool
unfolding eq_ci
search_needle zero i needle domain = false
search_needle (suc rounds) i needle domain =
    eq_ci (take (length needle) (drop i domain)) needle
    || search_needle rounds (i + 1) needle domain

-- "*needle*"
unfoldable pub match_contains : Bytes → Bytes → Bool
unfolding search_needle
match_contains needle domain =
    if length needle == 0
    then true
    else if leb (domain_max + 1) (length needle)
    then false
    else if ltb (length domain) (length needle)
    then false
    else search_needle (length domain - length needle + 1) 0 needle domain

-- "*.foo.ch", with the suffix ".foo.ch".
unfoldable pub match_suffix : Bytes → Bytes → Bool
unfolding eq_ci
match_suffix suffix domain =
    if eq_ci domain (drop 1 suffix)
    then true
    else ltb (length suffix) (length domain)
      && eq_ci (drop (length domain - length suffix) domain) suffix

abbrev pub head_cons : ℕ → List Bytes → List Bytes
head_cons x [] = (x ∷ []) ∷ []
head_cons x (w ∷ ws) = (x ∷ w) ∷ ws

abbrev pub trim_cons : ℕ → Bytes → Bytes
trim_cons x [] = if x == 32 then [] else x ∷ []
trim_cons x (y ∷ ys) = x ∷ y ∷ ys

-- The pieces of a text between the bytes `c`.
unfoldable pub fields : ℕ → Bytes → List Bytes
fields c [] = [] ∷ []
fields c (x ∷ xs) = let rest = fields c xs in if x == c then [] ∷ rest else head_cons x rest

-- `while (*tok == ' ') tok++;`
abbrev pub trim_left : Bytes → Bytes
trim_left [] = []
trim_left (x ∷ xs) = let rest = trim_left xs in if x == 32 then rest else x ∷ xs

-- `while (end > tok && *end == ' ') *end-- = 0;`: `tok` itself is no blank by then.
abbrev pub trim_right : Bytes → Bytes
trim_right [] = []
trim_right (x ∷ xs) = trim_cons x (trim_right xs)

abbrev pub trim : Bytes → Bytes
trim tok = trim_right (trim_left tok)

-- What stands behind the last `c`, strrchr(s, c) + 1.
unfoldable pub after_last : ℕ → Bytes → Option Bytes
after_last c [] = none
after_last c (x ∷ xs) = elim (after_last c xs) [
  | some r ↦ some r
  | none ↦ if x == c then some xs else none
]

unfoldable pub base_of : Bytes → Bytes
unfolding after_last
base_of pattern = elim (after_last b'/' pattern) [ none ↦ pattern | some base ↦ base ]

-- `x & mask` with `mask = prefix == 0 ? 0 : ~0u << (32 - prefix)`: the low `32 - prefix` bits are
-- cleared.
abbrev pub masked : ℕ → ℕ → ℕ
masked x prefix = if prefix == 0 then 0 else x / 2 ^ (32 - prefix) * 2 ^ (32 - prefix)

module _ (libc : Libc) where
  unfoldable pub match_domain_single : Bytes → Bytes → Bool
  unfolding match_contains match_suffix eq_ci contains_byte
  match_domain_single pattern domain =
      if leb 2 (length pattern)
        && get_or pattern 0 0 == b'*'
        && get_or pattern (length pattern - 1) 0 == b'*'
      then match_contains (take (length pattern - 2) (drop 1 pattern)) domain
      else if ltb 2 (length pattern) && get_or pattern 0 0 == b'*' && get_or pattern 1 0 == b'.'
      then match_suffix (drop 1 pattern) domain
      else if not (contains_byte b'*' pattern) && not (contains_byte b'?' pattern)
      then eq_ci pattern domain
      else libc.fnmatch_casefold pattern domain

  -- The tokens of strtok_r, tried in order; empty ones are skipped, as are those of blanks only.
  unfoldable pub match_any_token : List Bytes → Bytes → Bool
  unfolding match_domain_single
  match_any_token [] domain = false
  match_any_token (tok ∷ toks) domain =
      not (length (trim tok) == 0) && match_domain_single (trim tok) domain
      || match_any_token toks domain

  -- snprintf into `buf` keeps PF_DOMAIN_MAX * 4 - 1 bytes.
  unfoldable pub match_domain : Bytes → Bytes → Bool
  unfolding match_any_token fields contains_byte
  match_domain pattern domain =
      if contains_byte b',' pattern
      then match_any_token (fields b',' (take (domain_max * 4 - 1) pattern)) domain
      else match_domain_single pattern domain

  unfoldable pub match_app : Bytes → Bytes → Bool
  unfolding bytes_eq after_last contains_byte base_of
  match_app pattern app_path =
      let app_base = libc.basename (take (path_max - 1) app_path) in
      if bytes_eq pattern app_path
      then true
      else if bytes_eq (base_of pattern) app_base
      then true
      else if not (contains_byte b'/' pattern) && bytes_eq pattern app_base
      then true
      else libc.fnmatch pattern app_path

  -- "192.168.1.0/24", from what stands before and behind the slash.
  unfoldable pub match_cidr : ℕ → Bytes → Bytes → Bool
  unfolding atoi
  match_cidr host_ip net_str prefix_str =
      if leb 48 (length net_str)
      then false
      else if not (leb_ℤ (pos 0) (atoi prefix_str)) || not (leb_ℤ (atoi prefix_str) (pos 32))
      then false
      else elim (libc.inet_pton net_str) [
        | none ↦ false
        | some net ↦
            masked host_ip (pos_part (atoi prefix_str)) == masked net (pos_part (atoi prefix_str))
      ]

  -- "10.0.0.1-10.0.0.255", from what stands before and behind the dash.
  unfoldable pub match_range : ℕ → Bytes → Bytes → Bool
  match_range host_ip start_str end_str =
      if leb 48 (length start_str) then false else elim (libc.inet_pton start_str) [
        | none ↦ false
        | some start_h ↦ elim (libc.inet_pton (take 47 end_str)) [
          | none ↦ false
          | some end_h ↦ leb start_h host_ip && leb host_ip end_h
        ]
      ]

  unfoldable pub match_exact : ℕ → Bytes → Bool
  match_exact host_ip pattern = elim (libc.inet_pton pattern) [
    | none ↦ false
    | some addr ↦ host_ip == addr
  ]

  unfoldable pub match_host : ℕ → Bytes → Bool
  unfolding match_cidr match_range match_exact split_at
  match_host host_ip pattern = elim ((split_at b'/' pattern).1) [
    | some prefix_str ↦ match_cidr host_ip ((split_at b'/' pattern).0) prefix_str
    | none ↦ elim ((split_at b'-' pattern).1) [
      | some end_str ↦ match_range host_ip ((split_at b'-' pattern).0) end_str
      | none ↦ match_exact host_ip pattern
    ]
  ]

  unfoldable pub match_ip : Bytes → Bytes → Bool
  unfolding match_host
  match_ip pattern ip = elim (libc.inet_pton ip) [
    | none ↦ false
    | some host ↦ match_host host pattern
  ]

-- "443" or "8000-9000"
unfoldable pub match_ports : Bytes → ℤ → Bool
unfolding atoi split_at
match_ports p port = elim ((split_at b'-' p).1) [
  | some hi ↦ leb_ℤ (atoi p) port && leb_ℤ port (atoi hi)
  | none ↦ eqb_ℤ port (atoi p)
]

-- A leading ':' is skipped.
unfoldable pub match_port : Bytes → ℤ → Bool
unfolding match_ports
match_port [] port = match_ports [] port
match_port (c ∷ p) port = if c == b':' then match_ports p port else match_ports (c ∷ p) port
