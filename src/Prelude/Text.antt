-- ===== src/Prelude/Text.antt =====
-- C strings as the bytes before their NUL, and what string.h and strings.h (in the C locale) do to them.
use Prim.Native.Char.{code}
use Prim.Native.String.{String}
use Prim.Native.Nat.{ℕ, suc, ◌+◌}
use mathlib.Core.Path.{◌≡◌, refl, ap}
use mathlib.Core.Logic.{◌↔◌, ◌⊎◌, inl, inr}
use mathlib.Core.Bool.{Bool, true, false, ◌&&◌, ◌||◌}
use mathlib.Core.List.{List, [], ◌∷◌, ◌++◌}
use mathlib.Core.Option.{Option, none, some}
use native.Mathlib.Omega.{arith}
use proxiflare.Prelude.Tests.{◌==◌, leb, if◌then◌else◌, Bool-cases, ==_iff}
use proxiflare.Prelude.Lists.{length}

-- The bytes of an ASCII literal.
abbrev pub codes : String → List ℕ
codes String.[] = []
codes (String.◌∷◌ c s) = code c ∷ codes s

-- strcmp(a, b) == 0
unfoldable pub bytes_eq : List ℕ → List ℕ → Bool
bytes_eq [] [] = true
bytes_eq (x ∷ xs) (y ∷ ys) = x == y && bytes_eq xs ys
bytes_eq _ _ = false

-- tolower
unfoldable pub to_lower : ℕ → ℕ
to_lower c = if leb b'A' c && leb c b'Z' then c + 32 else c

unfoldable pub lower : List ℕ → List ℕ
unfolding to_lower
lower [] = []
lower (c ∷ s) = to_lower c ∷ lower s

-- strcasecmp(a, b) == 0
unfoldable pub eq_ci : List ℕ → List ℕ → Bool
unfolding bytes_eq lower
eq_ci a b = bytes_eq (lower a) (lower b)

-- A C string in a buffer.
unfoldable pub c_text : List ℕ → List ℕ
c_text [] = []
c_text (x ∷ s) = let rest = c_text s in if x == 0 then [] else x ∷ rest

-- strchr(s, c) != NULL
unfoldable pub contains_byte : ℕ → List ℕ → Bool
contains_byte c [] = false
contains_byte c (x ∷ xs) = x == c || contains_byte c xs

-- What stands before the first `c`, and what stands behind it if there is one.
unfoldable pub split_at : ℕ → List ℕ → List ℕ × Option (List ℕ)
split_at c [] = ([], none)
split_at c (x ∷ xs) =
    let (before, behind) = split_at c xs in if x == c then ([], some xs) else (x ∷ before, behind)

pub bytes_eq_iff : (a b : List ℕ) → (bytes_eq a b ≡ true) ↔ (a ≡ b)
unfolding bytes_eq
bytes_eq_iff (x ∷ a) (y ∷ b) = ground (arith, bytes_eq_iff a b)
bytes_eq_iff _ _ = ground arith

pub bytes_eq_refl : (a : List ℕ) → bytes_eq a a ≡ true
bytes_eq_refl a = (bytes_eq_iff a a).1 refl

pub eq_ci_iff : (a b : List ℕ) → (eq_ci a b ≡ true) ↔ (lower a ≡ lower b)
unfolding eq_ci
eq_ci_iff a b = bytes_eq_iff (lower a) (lower b)

pub length-lower : (s : List ℕ) → length (lower s) ≡ length s
unfolding lower
length-lower [] = refl
length-lower (c ∷ s) = ap suc (length-lower s)

pub lower-append : (a b : List ℕ) → lower (a ++ b) ≡ lower a ++ lower b
unfolding lower
lower-append [] b = refl
lower-append (x ∷ a) b = ap (◌∷◌ (to_lower x)) (lower-append a b)

-- Splitting at a byte that a prefix does not hold.
pub split_at-append :
    (c : ℕ) (a b : List ℕ) → contains_byte c a ≡ false → split_at c (a ++ c ∷ b) ≡ (a, some b)
unfolding split_at contains_byte
split_at-append c [] b h = ground arith
split_at-append c (x ∷ a) b h = ground (arith, split_at-append c a b)

pub split_at-none : (c : ℕ) (a : List ℕ) → contains_byte c a ≡ false → split_at c a ≡ (a, none)
unfolding split_at contains_byte
split_at-none c [] h = refl
split_at-none c (x ∷ a) h = ground (arith, split_at-none c a)

-- A text without the byte, or its first occurrence.
pub contains_byte-cases :
    (c : ℕ) (a : List ℕ)
    → (contains_byte c a ≡ false)
      ⊎ ((l : List ℕ) × (rest : List ℕ) × (a ≡ l ++ c ∷ rest) × (contains_byte c l ≡ false))
unfolding contains_byte
contains_byte-cases c [] = inl refl
contains_byte-cases c (x ∷ a) = elim (Bool-cases (x == c)) [
  | inl e ↦ inr ([], a, ap (λ y. y ∷ a) ((==_iff x c).0 e), refl)
  | inr e ↦ elim (contains_byte-cases c a) [
    | inl n ↦ inl (rw (contains_byte, e) n)
    | inr (l, rest, s, n) ↦ inr (x ∷ l, rest, ap (◌∷◌ x) s, rw (contains_byte, e) n)
  ]
]

-- A text without a NUL is a C string as it stands.
pub c_text-whole : (s : List ℕ) → contains_byte 0 s ≡ false → c_text s ≡ s
unfolding c_text contains_byte
c_text-whole [] h = refl
c_text-whole (x ∷ s) h = elim (Bool-cases (x == 0)) [
  | inl e ↦ let z : true ≡ false = (rw (contains_byte, e) at h) in cc
  | inr e ↦ rw (c_text, e) (ap (◌∷◌ x) (c_text-whole s (rw (contains_byte, e) at h)))
]
