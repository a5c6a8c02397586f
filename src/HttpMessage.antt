-- ===== src/HttpMessage.antt =====
-- daemon/src/http_parser.c: the parser of captured HTTP requests and responses. A failure (-1) is
-- `none`; what a failing call has already written to `msg` is not modelled. `atol` and `strtol` are
-- on texts whose value fits.
pub mod Lines
pub mod RoundTrip
use proxiflare.Prelude.{
  ℕ, zero, suc, ◌+◌, ◌-◌, ◌^◌, Bool, true, false, not, ◌&&◌, ◌||◌, Option, none, some, List, [],
  ◌∷◌, ◌==◌, ltb, leb, if◌then◌else◌, Bytes, length, get_or, take, drop, codes, c_text, eq_ci,
  split_at,
}
use proxiflare.Prelude.Int.{ℤ, pos, negsuc, atoi}

pub record Header : Type 0 where
  pub key : Bytes
  pub value : Bytes

-- The numbers of bytes that the fields hold before their NUL, and the limits of the header file.
abbrev pub max_headers : ℕ
max_headers = 64

abbrev pub max_body : ℕ
max_body = 262144

-- pf_http_msg_t. `body` holds the `body_len` bytes at `body`, and is empty where that is NULL.
pub record Msg : Type 0 where
  pub is_request : Bool
  pub method : Bytes
  pub url : Bytes
  pub version : Bytes
  pub headers : List Header
  pub body : Bytes
  pub content_length : ℕ
  pub status_code : ℤ
  pub status_text : Bytes
  pub header_end : ℕ

-- `find_header_end` at index `i`: the offset past the first CR LF CR LF, or 0.
unfoldable pub header_end_from : ℕ → Bytes → ℕ
header_end_from i [] = 0
header_end_from i (x ∷ s) =
    let rest = header_end_from (i + 1) s in
    if x == 13 && (get_or s 0 0 == 10 && (get_or s 1 0 == 13 && get_or s 2 0 == 10))
    then i + 4
    else rest

-- `while (val < eol && (*val == ' ' || *val == '\t')) val++;`
unfoldable pub skip_blanks : Bytes → Bytes
skip_blanks [] = []
skip_blanks (x ∷ s) = let rest = skip_blanks s in if x == 32 || x == 9 then rest else x ∷ s

-- The line at `p` up to its CR, with what stands behind its colon.
unfoldable pub header_of : Bytes → Bytes → Header
unfolding skip_blanks
header_of key value = record { key = take 255 key; value = take 4095 (skip_blanks value) }

-- What a line without a colon, and one with it, leave to the other rounds.
abbrev pub colon_step : Bytes × Option Bytes → List Header → List Header → List Header
colon_step (key, none) same less = same
colon_step (key, some value) same less = header_of key value ∷ less

-- A round at `p`, from its first CR.
abbrev pub line_step :
    Bool
    → Bytes × Option Bytes
    → Bytes
    → (Bytes → List Header)
    → (Bytes → List Header)
    → List Header
line_step true cut p same less = []
line_step false (line, none) p same less = []
line_step false (line, some _) p same less =
    colon_step (split_at b':' line) (same (drop (length line + 2) p))
      (less (drop (length line + 2) p))

-- The loop of `parse_headers`: the rounds and the headers left, and `p` up to `end`.
unfoldable pub headers_loop : ℕ → ℕ → Bytes → List Header
unfolding header_of split_at
headers_loop fuel room [] = []
headers_loop zero room (x ∷ s) = []
headers_loop (suc fuel) zero (x ∷ s) = []
headers_loop (suc fuel) (suc room) (x ∷ s) =
    line_step (x == 13 && get_or s 0 0 == 10) (split_at 13 (x ∷ s)) (x ∷ s)
      (λ p. headers_loop fuel (suc room) p) (λ p. headers_loop fuel room p)

-- A round moves `p` on by two bytes at least.
unfoldable pub parse_headers : Bytes → List Header
unfolding headers_loop
parse_headers p = headers_loop (length p) max_headers p

unfoldable pub get_header : List Header → Bytes → Option Bytes
unfolding eq_ci c_text
get_header [] key = none
get_header (h ∷ hs) key =
    let rest = get_header hs key in if eq_ci (c_text h.key) (c_text key) then some h.value else rest

-- `(size_t)atol(cl)`
abbrev pub to_size : ℤ → ℕ
to_size (pos n) = n
to_size (negsuc n) = 2 ^ 64 - 1 - n

unfoldable pub content_length_of : List Header → ℕ
unfolding get_header atoi
content_length_of hs = elim (get_header hs (codes "Content-Length")) [
  | none ↦ 0
  | some cl ↦ to_size (atoi cl)
]

-- The headers stand between the first line and the end of the head.
abbrev pub header_block : Bytes → Bytes → ℕ → Bytes
header_block buf line hend = take (hend - (length line + 2)) (drop (length line + 2) buf)

abbrev pub body_of : Bytes → ℕ → Bytes
body_of buf hend = take max_body (drop hend buf)

abbrev pub request_msg : Bytes → ℕ → Bytes → Bytes → Bytes → Bytes → Msg
request_msg buf hend line method url version =
    let hs = parse_headers (header_block buf line hend) in
    record {
      is_request = true;
      method = take 15 method;
      url = take 2047 url;
      version = take 15 version;
      headers = hs;
      body = body_of buf hend;
      content_length = content_length_of hs;
      status_code = pos 0;
      status_text = [];
      header_end = hend;
    }

-- METHOD SP URL SP VERSION
unfoldable pub request_line : Bytes → ℕ → Bytes → Option Msg
unfolding split_at parse_headers content_length_of
request_line buf hend line = elim (split_at 32 line).1 [
  | none ↦ none
  | some p ↦ elim (split_at 32 p).1 [
    | none ↦ none
    | some version ↦ some (request_msg buf hend line (split_at 32 line).0 (split_at 32 p).0 version)
  ]
]

-- There is a CR wherever the end of the head is found.
unfoldable pub parse_request : Bytes → Option Msg
unfolding header_end_from request_line
parse_request buf =
    if ltb (length buf) 10
    then none
    else if header_end_from 0 buf == 0
    then none
    else elim (split_at 13 buf).1 [
      | none ↦ none
      | some _ ↦ request_line buf (header_end_from 0 buf) (split_at 13 buf).0
    ]

abbrev pub status_text_of : Option Bytes → Bytes
status_text_of none = []
status_text_of (some text) = take 63 text

-- The status code is read by strtol, which the end of the line does not stop.
abbrev pub response_msg : Bytes → ℕ → Bytes → Bytes → Bytes → Msg
response_msg buf hend line version p =
    let hs = parse_headers (header_block buf line hend) in
    record {
      is_request = false;
      method = [];
      url = [];
      version = take 15 version;
      headers = hs;
      body = body_of buf hend;
      content_length = content_length_of hs;
      status_code = atoi (drop (length version + 1) buf);
      status_text = status_text_of (split_at 32 p).1;
      header_end = hend;
    }

-- VERSION SP STATUS SP TEXT
unfoldable pub status_line : Bytes → ℕ → Bytes → Option Msg
unfolding split_at parse_headers content_length_of atoi
status_line buf hend line = elim (split_at 32 line).1 [
  | none ↦ none
  | some p ↦ some (response_msg buf hend line (split_at 32 line).0 p)
]

unfoldable pub parse_response : Bytes → Option Msg
unfolding header_end_from status_line
parse_response buf =
    if ltb (length buf) 10
    then none
    else if header_end_from 0 buf == 0
    then none
    else elim (split_at 13 buf).1 [
      | none ↦ none
      | some _ ↦ status_line buf (header_end_from 0 buf) (split_at 13 buf).0
    ]
