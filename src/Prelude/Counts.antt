-- ===== src/Prelude/Counts.antt =====
-- How many entries of a table pass a test, and the entry that a loop for the first one finds.
use Prim.Native.Nat.{ℕ, zero, suc, ◌+◌, ◌≤◌}
use mathlib.Core.Path.{◌≡◌, refl, ap}
use mathlib.Core.Bool.{Bool, true, false}
use mathlib.Core.List.{List, [], ◌∷◌}
use mathlib.Core.Option.{some}
use native.Mathlib.Omega.{arith}
use proxiflare.Prelude.Lists.{length, get_elem?, set, replicate}

abbrev pub flag : Bool → ℕ
flag true = 1
flag false = 0

module _ {ℓ} {A : Type ℓ} (p : A → Bool) where
  abbrev pub count : List A → ℕ
  count [] = 0
  count (x ∷ xs) = flag (p x) + count xs

  flag_le : (b : Bool) → flag b ≤ 1
  flag_le true = omega arith
  flag_le false = omega arith

  pub count-length : (xs : List A) → count xs ≤ length xs
  count-length [] = omega arith
  count-length (x ∷ xs) = omega (arith, count-length xs, flag_le (p x))

  -- A write of an entry in place of another.
  pub count-set :
      (xs : List A) (i : ℕ) (old new : A)
      → get_elem? xs i ≡ some old
      → count (set xs i new) + flag (p old) ≡ count xs + flag (p new)
  count-set [] i old new e = cc
  count-set (x ∷ xs) zero old new e =
      let same : x ≡ old = cc in
      let n : flag (p x) ≡ flag (p old) = ap (λ y. flag (p y)) same in omega arith
  count-set (x ∷ xs) (suc i) old new e = omega (arith, count-set xs i old new e)

  pub count-replicate : (n : ℕ) (x : A) → p x ≡ false → count (replicate n x) ≡ 0
  count-replicate zero x h = refl
  count-replicate (suc n) x h =
      let z : flag (p x) ≡ 0 = ap flag h in omega (arith, count-replicate n x h)
