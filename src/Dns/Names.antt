-- ===== src/Dns/Names.antt =====
-- Query names on the wire, and what `dns_parse_qname` makes of them.
use proxiflare.Prelude.{
  ℕ, zero, suc, ◌+◌, ◌≤◌, ◌<◌, ◌≡◌, inl, inr, refl, sym, ap, ◌∙◌, true, false, none, some, List, [],
  ◌∷◌, ◌++◌, ◌==◌, leb, ltb, if◌then◌else◌, Bytes, length, arith, Bool-cases, take, drop, take-all,
  take-append, length-append, length-take, length-drop, lt→ltb, ltb→le, le→ltb, ==_ne,
}
use mathlib.Core.List.{append-nil, append_assoc}
use proxiflare.Sni.Reader.{Parse, done, ◌>>=◌, Safe, ok, Safe-bind, copy, copy-Safe, u8, u8-Safe}
use proxiflare.Dns.{Qname, append_label, qname_step, qname_loop, parse_qname}

-- A name as RFC 1035 writes it: every label behind its length, and an empty one at the end.
abbrev pub name_bytes : List Bytes → Bytes
name_bytes [] = 0 ∷ []
name_bytes (l ∷ ls) = length l ∷ (l ++ name_bytes ls)

abbrev pub dotted_tail : List Bytes → Bytes
dotted_tail [] = []
dotted_tail (l ∷ ls) = b'.' ∷ (l ++ dotted_tail ls)

-- The labels with dots between them.
abbrev pub dotted : List Bytes → Bytes
dotted [] = []
dotted (l ∷ ls) = l ++ dotted_tail ls

-- A label has 1 to 63 bytes.
abbrev pub AreLabels : List Bytes → Type 0
AreLabels [] = Unit
AreLabels (l ∷ ls) = ((1 ≤ length l) × (length l ≤ 63)) × AreLabels ls

abbrev Fits : ℕ → Qname → Type 0
Fits outsz q = length q.0 < outsz

append_label-Safe :
    (out ptr : Bytes) (len outsz : ℕ) (next : Bytes → Parse Qname)
    → length out < outsz
    → len ≤ length ptr
    → ((out' : Bytes) → length out' < outsz → Safe (Fits outsz) (next out'))
    → Safe (Fits outsz) (append_label out len ptr outsz next)
append_label-Safe out ptr len outsz next lt fits h = elim (Bool-cases (ltb 0 (length out))) [
  | inr e ↦ rw e (place out lt)
  | inl e ↦ elim (Bool-cases (leb outsz (length out + 1))) [
    | inl full ↦ rw (e, full) (ok lt)
    | inr room ↦
        rw (e, room)
          (place (out ++ b'.' ∷ []) (let l = length-append out (b'.' ∷ []) in ground arith))
  ]
]
  where
    place :
        (text : Bytes)
        → length text < outsz
        → Safe (Fits outsz) (
            if leb outsz (length text + len)
            then done (text, none)
            else (copy ptr 0 len >>= λ label. next (text ++ label)))
    place text short = elim (Bool-cases (leb outsz (length text + len))) [
      | inl full ↦ rw full (ok short)
      | inr room ↦ rw room (
          Safe-bind (copy-Safe ptr 0 len (omega arith)) λ label e. h (text ++ label) (
            let l = length-append text label in
            let k = length-take len ptr in
            let same : length label ≡ length (take len ptr) = ap length e in ground arith))
    ]

step-Safe :
    (out : Bytes) (len : ℕ) (ptr : Bytes) (outsz : ℕ) (next : Bytes → Bytes → Parse Qname)
    → length out < outsz
    → ((ptr' out' : Bytes)
        → length ptr' ≤ length ptr
        → length out' < outsz
        → Safe (Fits outsz) (next ptr' out'))
    → Safe (Fits outsz) (qname_step out len ptr outsz next)
step-Safe out len ptr outsz next lt h = elim (Bool-cases (leb 0xC0 len)) [
  | inl y ↦ rw y (ok lt)
  | inr n ↦ elim (Bool-cases (len == 0)) [
    | inl y ↦ rw (n, y) (ok lt)
    | inr n' ↦ elim (Bool-cases (ltb (length ptr) len)) [
      | inl y ↦ rw (n, n', y) (ok lt)
      | inr n'' ↦
          let d = length-drop len ptr in
          rw (n, n', n'')
            (append_label-Safe out ptr len outsz (next (drop len ptr)) lt
              (ltb→le (length ptr) len n'') (λ out' lt'. h (drop len ptr) out' (omega arith) lt'))
    ]
  ]
]

-- The rounds left exceed the bytes left.
loop-Safe :
    (fuel : ℕ) (ptr out : Bytes) (outsz : ℕ)
    → length out < outsz
    → length ptr < fuel
    → Safe (Fits outsz) (qname_loop fuel ptr out outsz)
unfolding qname_loop
loop-Safe zero ptr out outsz lt more = absurd (omega arith)
loop-Safe (suc fuel) [] out outsz lt more = ok lt
loop-Safe (suc fuel) (b ∷ ptr) out outsz lt more =
    let some_left : ltb 0 (length (b ∷ ptr)) ≡ true = ground arith in
    rw (qname_loop, some_left)
      (Safe-bind (u8-Safe (b ∷ ptr) 0 (omega arith)) λ len _.
        step-Safe out len ptr outsz (λ ptr' out'. qname_loop fuel ptr' out' outsz) lt
          (λ ptr' out' le lt'. loop-Safe fuel ptr' out' outsz lt' (omega arith)))

loop-byte :
    (fuel len : ℕ) (ptr out : Bytes) (outsz : ℕ)
    → qname_loop (suc fuel) (len ∷ ptr) out outsz
      ≡ qname_step out len ptr outsz (λ ptr' out'. qname_loop fuel ptr' out' outsz)
unfolding qname_loop u8
loop-byte fuel len ptr out outsz =
    let some_left : ltb 0 (length (len ∷ ptr)) ≡ true = ground arith in
    rw (qname_loop, some_left) refl

-- Whatever the packet holds, `dns_parse_qname` reads up to its end at most, its loop ends, and it
-- leaves room for the terminating NUL in `out`.
pub parse_qname-Safe :
    (ptr : Bytes) (outsz : ℕ) → 0 < outsz → Safe (Fits outsz) (parse_qname ptr outsz)
unfolding parse_qname
parse_qname-Safe ptr outsz pos = loop-Safe (suc (length ptr)) ptr [] outsz pos (omega arith)

-- One label is read, and what is behind it stays.
take-label : (l rest : Bytes) → take (length l) (l ++ rest) ≡ l
take-label l rest =
    take-append (length l) l rest (omega arith) ∙ take-all (length l) l (omega arith)

drop-label : (l rest : Bytes) → drop (length l) (l ++ rest) ≡ rest
drop-label [] rest = refl
drop-label (x ∷ l) rest = drop-label l rest

loop-end :
    (fuel : ℕ) (out rest : Bytes) (outsz : ℕ)
    → qname_loop (suc fuel) (0 ∷ rest) out outsz ≡ done (out, some rest)
loop-end fuel out rest outsz = loop-byte fuel 0 rest out outsz

loop-label :
    (fuel : ℕ) (l more out : Bytes) (outsz : ℕ)
    → (1 ≤ length l) × (length l ≤ 63)
    → qname_loop (suc fuel) (length l ∷ (l ++ more)) out outsz
      ≡ append_label out (length l) (l ++ more) outsz (λ out'. qname_loop fuel more out' outsz)
loop-label fuel l more out outsz h =
    let big : leb 0xC0 (length l) ≡ false = ground arith in
    let room : ltb (length (l ++ more)) (length l) ≡ false =
      le→ltb (length (l ++ more)) (length l) (omega (arith, length-append l more)) in
    loop-byte fuel (length l) (l ++ more) out outsz
    ∙ rw (big, ==_ne (length l) 0 (omega arith), room, drop-label l more) refl

copy-label : (l more : Bytes) → copy (l ++ more) 0 (length l) ≡ done l
unfolding copy
copy-label l more =
    let e : ltb (length (l ++ more)) (0 + length l) ≡ false =
      le→ltb (length (l ++ more)) (0 + length l) (omega (arith, length-append l more)) in
    rw (e, take-label l more) refl

append-first :
    (l more : Bytes) (outsz : ℕ) (next : Bytes → Parse Qname)
    → length l < outsz
    → append_label [] (length l) (l ++ more) outsz next ≡ next l
append-first l more outsz next lt =
    let room : leb outsz (0 + length l) ≡ false = ground arith in rw (room, copy-label l more) refl

append-next :
    (out l more : Bytes) (outsz : ℕ) (next : Bytes → Parse Qname)
    → 1 ≤ length out
    → length out + 1 + length l < outsz
    → append_label out (length l) (l ++ more) outsz next ≡ next (out ++ b'.' ∷ l)
append-next out l more outsz next pos lt =
    let some_out : ltb 0 (length out) ≡ true = lt→ltb 0 (length out) (omega arith) in
    let dot : leb outsz (length out + 1) ≡ false = ground arith in
    let n = length-append out (b'.' ∷ []) in
    let room : leb outsz (length (out ++ b'.' ∷ []) + length l) ≡ false = ground arith in
    rw (some_out, dot, room, copy-label l more, append_assoc out (b'.' ∷ []) l) refl

loop-labels :
    (fuel : ℕ) (ls : List Bytes) (rest out : Bytes) (outsz : ℕ)
    → AreLabels ls
    → 1 ≤ length out
    → length out + length (dotted_tail ls) < outsz
    → length (name_bytes ls) ≤ fuel
    → qname_loop fuel (name_bytes ls ++ rest) out outsz ≡ done (out ++ dotted_tail ls, some rest)
loop-labels zero [] rest out outsz h pos lt le = absurd (omega arith)
loop-labels (suc fuel) [] rest out outsz h pos lt le =
    loop-end fuel out rest outsz ∙ ap (λ o. done (o, some rest)) (sym (append-nil out))
loop-labels zero (l ∷ ls) rest out outsz h pos lt le = absurd (omega arith)
loop-labels (suc fuel) (l ∷ ls) rest out outsz h pos lt le =
    let more = name_bytes ls ++ rest in
    let a = length-append l (dotted_tail ls) in
    let b = length-append l (name_bytes ls) in
    let c = length-append out (b'.' ∷ l) in
    ap (λ t. qname_loop (suc fuel) (length l ∷ t) out outsz) (append_assoc l (name_bytes ls) rest)
    ∙ loop-label fuel l more out outsz h.0
    ∙ append-next out l more outsz (λ out'. qname_loop fuel more out' outsz) pos (omega arith)
    ∙ loop-labels fuel ls rest (out ++ b'.' ∷ l) outsz h.1 (omega arith) (omega arith) (omega arith)
    ∙ ap (λ o. done (o, some rest)) (append_assoc out (b'.' ∷ l) (dotted_tail ls))

-- A well-formed query name, if its text and a NUL fit `out`, is read as its labels with dots between
-- them, and exactly its bytes are consumed.
pub parse_qname-name_bytes :
    (ls : List Bytes) (rest : Bytes) (outsz : ℕ)
    → AreLabels ls
    → length (dotted ls) < outsz
    → parse_qname (name_bytes ls ++ rest) outsz ≡ done (dotted ls, some rest)
unfolding parse_qname
parse_qname-name_bytes [] rest outsz h lt = loop-end (suc (length rest)) [] rest outsz
parse_qname-name_bytes (l ∷ ls) rest outsz h lt =
    let fuel = suc (length ((l ++ name_bytes ls) ++ rest)) in
    let more = name_bytes ls ++ rest in
    let a = length-append l (dotted_tail ls) in
    let b = length-append (l ++ name_bytes ls) rest in
    let c = length-append l (name_bytes ls) in
    ap (λ t. qname_loop (suc fuel) (length l ∷ t) [] outsz) (append_assoc l (name_bytes ls) rest)
    ∙ loop-label fuel l more [] outsz h.0
    ∙ append-first l more outsz (λ out'. qname_loop fuel more out' outsz) (omega arith)
    ∙ loop-labels fuel ls rest l outsz h.1 (omega arith) (omega arith) (omega arith)
