-- ===== src/HttpMessage/Lines.antt =====
-- An HTTP request on the wire, and what the loops of http_parser.c make of its lines.
use proxiflare.Prelude.{
  ℕ, zero, suc, ◌+◌, ◌≤◌, ◌≡◌, refl, ap, ◌∙◌, false, ◌&&◌, some, List, [], ◌∷◌, ◌++◌, ◌==◌, Bytes,
  length, arith, get_or, take, drop, take-all, length-append, contains_byte, split_at,
  split_at-append,
}
use proxiflare.HttpMessage.{
  Header, header_end_from, skip_blanks, header_of, headers_loop, line_step,
}

abbrev pub line_of : Header → Bytes
line_of h = h.key ++ (b':' ∷ 32 ∷ h.value)

-- The header lines, the empty line and the body.
abbrev pub head_lines : List Header → Bytes → Bytes
head_lines [] body = 13 ∷ 10 ∷ body
head_lines (h ∷ hs) body = line_of h ++ (13 ∷ 10 ∷ head_lines hs body)

abbrev pub first_line : Bytes → Bytes → Bytes → Bytes
first_line method url version = method ++ (32 ∷ (url ++ (32 ∷ version)))

abbrev pub render : Bytes → Bytes → Bytes → List Header → Bytes → Bytes
render method url version hs body = first_line method url version ++ (13 ∷ 10 ∷ head_lines hs body)

-- A header line without a CR whose key has no colon and whose value does not start with a blank,
-- both of a size that the fields hold.
pub record IsHeader (h : Header) : Type 0 where
  pub no_cr : contains_byte 13 (line_of h) ≡ false
  pub no_colon : contains_byte b':' h.key ≡ false
  pub no_blank : skip_blanks h.value ≡ h.value
  pub key_fits : length h.key ≤ 255
  pub value_fits : length h.value ≤ 4095

abbrev pub AreHeaders : List Header → Type 0
AreHeaders [] = Unit
AreHeaders (h ∷ hs) = IsHeader h × AreHeaders hs

-- The parts of the first line are separated by blanks, and fit their fields.
pub record IsFirstLine (method url version : Bytes) : Type 0 where
  pub no_cr : contains_byte 13 (first_line method url version) ≡ false
  pub method_plain : contains_byte 32 method ≡ false
  pub url_plain : contains_byte 32 url ≡ false
  pub method_fits : length method ≤ 15
  pub url_fits : length url ≤ 2047
  pub version_fits : length version ≤ 15
  pub not_short : 6 ≤ length (first_line method url version)

abbrev pub head_len : List Header → ℕ
head_len [] = 2
head_len (h ∷ hs) = length (line_of h) + (suc (suc (head_len hs)))

suc_add : (m n : ℕ) → suc m + n ≡ suc (m + n)
suc_add m n = omega arith

pub drop-past : (a b : Bytes) (n : ℕ) → drop (length a + n) (a ++ b) ≡ drop n b
drop-past [] b n = ap (λ k. drop k b) (omega arith)
drop-past (x ∷ a) b n = ap (λ k. drop k (x ∷ (a ++ b))) (suc_add (length a) n) ∙ drop-past a b n

take-past : (a b : Bytes) (n : ℕ) → take (length a + n) (a ++ b) ≡ a ++ take n b
take-past [] b n = ap (λ k. take k b) (omega arith)
take-past (x ∷ a) b n =
    ap (λ k. take k (x ∷ (a ++ b))) (suc_add (length a) n) ∙ ap (◌∷◌ x) (take-past a b n)

pub drop-head_lines :
    (hs : List Header) (body : Bytes) → drop (head_len hs) (head_lines hs body) ≡ body
drop-head_lines [] body = refl
drop-head_lines (h ∷ hs) body =
    drop-past (line_of h) (13 ∷ 10 ∷ head_lines hs body) (suc (suc (head_len hs)))
    ∙ drop-head_lines hs body

pub take-head_lines :
    (hs : List Header) (body : Bytes) → take (head_len hs) (head_lines hs body) ≡ head_lines hs []
take-head_lines [] body = refl
take-head_lines (h ∷ hs) body =
    take-past (line_of h) (13 ∷ 10 ∷ head_lines hs body) (suc (suc (head_len hs)))
    ∙ ap (λ t. line_of h ++ (13 ∷ 10 ∷ t)) (take-head_lines hs body)

pub length-head_lines : (hs : List Header) → length (head_lines hs []) ≡ head_len hs
length-head_lines [] = refl
length-head_lines (h ∷ hs) =
    omega (arith, length-head_lines hs, length-append (line_of h) (13 ∷ 10 ∷ head_lines hs []))

-- No end of the head within a line.
pub end-line :
    (i : ℕ) (l s : Bytes)
    → contains_byte 13 l ≡ false
    → header_end_from i (l ++ s) ≡ header_end_from (i + length l) s
unfolding header_end_from contains_byte
end-line i [] s h = ap (λ k. header_end_from k s) (omega arith)
end-line i (x ∷ l) s h =
    let (ne, later) : ((x == 13) ≡ false) × (contains_byte 13 l ≡ false) =
      (ground arith, ground arith) in
    rw ne (end-line (i + 1) l s later ∙ ap (λ k. header_end_from k s) (omega arith))

-- A line break that no other follows.
end-break :
    (i y : ℕ) (s : Bytes)
    → (y == 13) ≡ false
    → header_end_from i (13 ∷ 10 ∷ y ∷ s) ≡ header_end_from (i + 1 + 1) (y ∷ s)
unfolding header_end_from
end-break i y s ne = rw ne refl

not_cr : (x : ℕ) (l : Bytes) → contains_byte 13 (x ∷ l) ≡ false → (x == 13) ≡ false
unfolding contains_byte
not_cr x l h = ground arith

-- A line break in front of a line that has a byte and no CR.
end-line_break :
    (i x : ℕ) (l s : Bytes)
    → contains_byte 13 (x ∷ l) ≡ false
    → header_end_from i (13 ∷ 10 ∷ ((x ∷ l) ++ s)) ≡ header_end_from (i + 1 + 1 + length (x ∷ l)) s
end-line_break i x l s h = end-break i x (l ++ s) (not_cr x l h) ∙ end-line (i + 1 + 1) (x ∷ l) s h

-- A header line starts with its key, or with the colon of an empty one.
end-header :
    (i : ℕ) (key value s : Bytes)
    → contains_byte 13 (key ++ (b':' ∷ 32 ∷ value)) ≡ false
    → header_end_from i (13 ∷ 10 ∷ ((key ++ (b':' ∷ 32 ∷ value)) ++ s))
      ≡ header_end_from (i + 1 + 1 + length (key ++ (b':' ∷ 32 ∷ value))) s
end-header i [] value s h = end-line_break i b':' (32 ∷ value) s h
end-header i (x ∷ key) value s h = end-line_break i x (key ++ (b':' ∷ 32 ∷ value)) s h

end-blank : (i : ℕ) (body : Bytes) → header_end_from i (13 ∷ 10 ∷ 13 ∷ 10 ∷ body) ≡ i + 4
unfolding header_end_from
end-blank i body = refl

-- The end of the head is found behind its last line.
pub end-head_lines :
    (i : ℕ) (hs : List Header) (body : Bytes)
    → AreHeaders hs
    → header_end_from i (13 ∷ 10 ∷ head_lines hs body) ≡ i + 2 + head_len hs
end-head_lines i [] body ok = end-blank i body ∙ omega arith
end-head_lines i (h ∷ hs) body ok =
    end-header i h.key h.value (13 ∷ 10 ∷ head_lines hs body) ok.0.no_cr
    ∙ end-head_lines (i + 1 + 1 + length (line_of h)) hs body ok.1
    ∙ omega arith

loop-round :
    (fuel room x : ℕ) (s : Bytes)
    → headers_loop (suc fuel) (suc room) (x ∷ s)
      ≡ line_step
          (x == 13 && get_or s 0 0 == 10)
          (split_at 13 (x ∷ s))
          (x ∷ s)
          (headers_loop fuel (suc room))
          (headers_loop fuel room)
unfolding headers_loop
loop-round fuel room x s = refl

-- One round of the loop over a line with a byte and no CR.
loop-line :
    (fuel room x : ℕ) (l more key value : Bytes)
    → contains_byte 13 (x ∷ l) ≡ false
    → split_at b':' (x ∷ l) ≡ (key, some value)
    → headers_loop (suc fuel) (suc room) ((x ∷ l) ++ (13 ∷ 10 ∷ more))
      ≡ header_of key value ∷ headers_loop fuel room more
loop-line fuel room x l more key value h e =
    let cut = split_at-append 13 (x ∷ l) (10 ∷ more) h in
    let at : drop (length (x ∷ l) + 2) ((x ∷ l) ++ (13 ∷ 10 ∷ more)) ≡ more =
      drop-past (x ∷ l) (13 ∷ 10 ∷ more) 2 in
    loop-round fuel room x (l ++ (13 ∷ 10 ∷ more)) ∙ rw (cut, not_cr x l h, e, at) refl

header_of_lem : (h : Header) → IsHeader h → header_of h.key (32 ∷ h.value) ≡ h
unfolding header_of skip_blanks
header_of_lem h ok =
    rw (ok.no_blank, take-all 255 h.key ok.key_fits, take-all 4095 h.value ok.value_fits) refl

loop-header :
    (fuel room : ℕ) (key value more : Bytes)
    → contains_byte 13 (key ++ (b':' ∷ 32 ∷ value)) ≡ false
    → contains_byte b':' key ≡ false
    → headers_loop (suc fuel) (suc room) ((key ++ (b':' ∷ 32 ∷ value)) ++ (13 ∷ 10 ∷ more))
      ≡ header_of key (32 ∷ value) ∷ headers_loop fuel room more
loop-header fuel room [] value more h c =
    loop-line fuel room b':' (32 ∷ value) more [] (32 ∷ value) h
      (split_at-append b':' [] (32 ∷ value) c)
loop-header fuel room (x ∷ key) value more h c =
    loop-line fuel room x (key ++ (b':' ∷ 32 ∷ value)) more (x ∷ key) (32 ∷ value) h
      (split_at-append b':' (x ∷ key) (32 ∷ value) c)

head_len_pos : (hs : List Header) → head_len hs ≤ 0 → ⊥
head_len_pos [] le = omega arith
head_len_pos (h ∷ hs) le = omega arith

pub loop-head_lines :
    (fuel room : ℕ) (hs : List Header)
    → AreHeaders hs
    → length hs ≤ room
    → head_len hs ≤ fuel
    → headers_loop fuel room (head_lines hs []) ≡ hs
unfolding headers_loop
loop-head_lines zero room hs ok fits le = absurd (head_len_pos hs le)
loop-head_lines (suc fuel) zero [] ok fits le = refl
loop-head_lines (suc fuel) (suc room) [] ok fits le = refl
loop-head_lines (suc fuel) zero (h ∷ hs) ok fits le = absurd (omega arith)
loop-head_lines (suc fuel) (suc room) (h ∷ hs) ok fits le =
    loop-header fuel room h.key h.value (head_lines hs []) ok.0.no_cr ok.0.no_colon
    ∙ ap (λ k. k ∷ headers_loop fuel room (head_lines hs [])) (header_of_lem h ok.0)
    ∙ ap (◌∷◌ h) (loop-head_lines fuel room hs ok.1 (omega arith) (omega arith))
