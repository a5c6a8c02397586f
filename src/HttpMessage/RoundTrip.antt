-- ===== src/HttpMessage/RoundTrip.antt =====
-- The fields of a well-formed HTTP request, read back from the wire.
use proxiflare.Prelude.{
  ℕ, suc, ◌+◌, ◌-◌, ◌≤◌, ◌≡◌, refl, ap, ◌∙◌, true, false, some, List, [], ◌∷◌, ◌++◌, ltb, Bytes,
  length, arith, take, drop, take-all, length-append, contains_byte, split_at, split_at-append,
  ==_ne, le→ltb,
}
use proxiflare.Prelude.Int.{pos}
use proxiflare.HttpMessage.{
  Header, Msg, max_headers, max_body, header_end_from, parse_headers, header_block, body_of,
  content_length_of, request_msg, request_line, parse_request,
}
use proxiflare.HttpMessage.Lines.{
  first_line, head_lines, render, line_of, IsFirstLine, AreHeaders, head_len, drop-past,
  take-head_lines, drop-head_lines, length-head_lines, end-line, end-head_lines, loop-head_lines,
}

module _ (method url version : Bytes) (hs : List Header) (body : Bytes) where
  abbrev wire : Bytes
  wire = render method url version hs body

  abbrev line : Bytes
  line = first_line method url version

  abbrev hend : ℕ
  hend = length line + 2 + head_len hs

  wire-end : contains_byte 13 line ≡ false → AreHeaders hs → header_end_from 0 wire ≡ hend
  wire-end h ok =
      end-line 0 line (13 ∷ 10 ∷ head_lines hs body) h
      ∙ end-head_lines (0 + length line) hs body ok
      ∙ omega arith

  wire-behind : (n : ℕ) → drop (length line + 2 + n) wire ≡ drop n (head_lines hs body)
  wire-behind n =
      ap (λ k. drop k wire) (assoc2 (length line) n)
      ∙ drop-past line (13 ∷ 10 ∷ head_lines hs body) (suc (suc n))
    where
      assoc2 : (m n : ℕ) → m + 2 + n ≡ m + suc (suc n)
      assoc2 m n = omega arith

  wire-body : body_of wire hend ≡ take max_body body
  wire-body = ap (take max_body) (wire-behind (head_len hs) ∙ drop-head_lines hs body)

  wire-block : header_block wire line hend ≡ head_lines hs []
  wire-block =
      let size : hend - (length line + 2) ≡ head_len hs = omega arith in
      let at : drop (length line + 2) wire ≡ head_lines hs body =
        drop-past line (13 ∷ 10 ∷ head_lines hs body) 2 in
      rw (size, at) (take-head_lines hs body)

  wire-headers :
      AreHeaders hs → length hs ≤ max_headers → parse_headers (header_block wire line hend) ≡ hs
  unfolding parse_headers
  wire-headers ok fits = rw wire-block (
      loop-head_lines (length (head_lines hs [])) max_headers hs ok fits
        (omega (arith, length-head_lines hs)))

  -- What the parser is to find.
  abbrev pub expected : Msg
  expected = record {
    is_request = true;
    method = method;
    url = url;
    version = version;
    headers = hs;
    body = take max_body body;
    content_length = content_length_of hs;
    status_code = pos 0;
    status_text = [];
    header_end = hend;
  }

  wire-msg :
      IsFirstLine method url version
      → AreHeaders hs
      → length hs ≤ max_headers
      → request_msg wire hend line method url version ≡ expected
  wire-msg f ok fits =
      rw
        (
          wire-headers ok fits,
          wire-body,
          take-all 15 method f.method_fits,
          take-all 2047 url f.url_fits,
          take-all 15 version f.version_fits,
        )
        refl

  wire-line :
      IsFirstLine method url version
      → request_line wire hend line ≡ some (request_msg wire hend line method url version)
  unfolding request_line
  wire-line f =
      let cut = split_at-append 32 method (url ++ (32 ∷ version)) f.method_plain in
      let cut' = split_at-append 32 url version f.url_plain in
      rw (cut, request_line)
        (rw cut' (
          ap
            (λ m.
              some (request_msg wire hend line m.0 (split_at 32 (url ++ (32 ∷ version))).0 version))
            cut
          ∙ ap (λ u. some (request_msg wire hend line method u.0 version)) cut'))

  long_enough : IsFirstLine method url version → ltb (length wire) 10 ≡ false
  long_enough f =
      let n = length-append line (13 ∷ 10 ∷ head_lines hs body) in
      le→ltb (length wire) 10 (omega (arith, f.not_short, rest hs))
    where
      rest : (hs : List Header) → 2 ≤ length (head_lines hs body)
      rest [] = omega arith
      rest (h ∷ hs) = omega (arith, length-append (line_of h) (13 ∷ 10 ∷ head_lines hs body))

  -- A well-formed request of at most 64 headers whose parts fit their fields is read back exactly:
  -- its method, URL, version and headers in order, the offset of its body, and the body, of which at
  -- most 256 KB are kept.
  pub parse_request-render :
      IsFirstLine method url version
      → AreHeaders hs
      → length hs ≤ max_headers
      → parse_request (render method url version hs body) ≡ some expected
  unfolding parse_request
  parse_request-render f ok fits =
      let found = wire-end f.no_cr ok in
      let cut = split_at-append 13 line (10 ∷ head_lines hs body) f.no_cr in
      rw (long_enough f, found, ==_ne hend 0 (omega arith), cut, parse_request)
        (rw (found, cut) (wire-line f ∙ ap some (wire-msg f ok fits)))
