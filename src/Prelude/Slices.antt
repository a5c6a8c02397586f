-- ===== src/Prelude/Slices.antt =====
-- Reading a buffer at an offset: `At xs off rest` says that `rest` is what `xs` holds from `off` on.
use Prim.Native.Nat.{ℕ, zero, suc, ◌+◌, ◌≤◌}
use mathlib.Core.Path.{◌≡◌, refl}
use mathlib.Core.List.{List, [], ◌∷◌, ◌++◌}
use mathlib.Core.Option.{some}
use native.Mathlib.Omega.{arith}
use native.Mathlib.Numerals.{add-one}
use proxiflare.Prelude.Lists.{length, get_elem?, take, drop, take-append}

module _ {ℓ} {A : Type ℓ} where
  pub record At (xs : List A) (off : ℕ) (rest : List A) : Type ℓ where
    pub rest_is : drop off xs ≡ rest
    pub ends : off + length rest ≡ length xs

  drop-suc :
      (n : ℕ) (xs : List A) (x : A) (rest : List A) → drop n xs ≡ x ∷ rest → drop (suc n) xs ≡ rest
  drop-suc zero [] x rest e = cc
  drop-suc zero (y ∷ xs) x rest e = cc
  drop-suc (suc n) [] x rest e = cc
  drop-suc (suc n) (y ∷ xs) x rest e = drop-suc n xs x rest e

  get_elem?-drop :
      (n : ℕ) (xs : List A) (x : A) (rest : List A) → drop n xs ≡ x ∷ rest → get_elem? xs n ≡ some x
  get_elem?-drop zero [] x rest e = cc
  get_elem?-drop zero (y ∷ xs) x rest e = cc
  get_elem?-drop (suc n) [] x rest e = cc
  get_elem?-drop (suc n) (y ∷ xs) x rest e = get_elem?-drop n xs x rest e

  pub get_elem?-add : (off k : ℕ) (xs : List A) → get_elem? xs (off + k) ≡ get_elem? (drop off xs) k
  get_elem?-add zero k xs = let e : zero + k ≡ k = omega arith in rw e
  get_elem?-add (suc off) k [] = refl
  get_elem?-add (suc off) k (x ∷ xs) =
      let e : suc off + k ≡ suc (off + k) = omega arith in rw e (get_elem?-add off k xs)

module _ {ℓ} {A : Type ℓ} {xs : List A} where
  -- The element `k` places on.
  pub At-nth :
      (off k : ℕ) (x : A) (rest : List A)
      → At xs off rest
      → get_elem? rest k ≡ some x
      → get_elem? xs (off + k) ≡ some x
  At-nth off k x rest h g = rw (get_elem?-add off k xs, h.rest_is) g

  pub At-start : At xs 0 xs
  At-start = record { rest_is = refl; ends = omega arith }

  pub At-get : (off : ℕ) (x : A) (rest : List A) → At xs off (x ∷ rest) → get_elem? xs off ≡ some x
  At-get off x rest h = get_elem?-drop off xs x rest h.rest_is

  pub At-suc : (off : ℕ) (x : A) (rest : List A) → At xs off (x ∷ rest) → At xs (off + 1) rest
  At-suc off x rest h = record {
    rest_is = rw add-one (drop-suc off xs x rest h.rest_is);
    ends = omega (arith, h.ends);
  }

  -- Behind a prefix of length `n`.
  pub At-skip :
      (p : List A) (off n : ℕ) (rest : List A)
      → length p ≡ n
      → At xs off (p ++ rest)
      → At xs (off + n) rest
  At-skip [] off n rest e h =
      let e' : off + n ≡ off = omega arith in
      record { rest_is = rw e' (h.rest_is); ends = omega (arith, h.ends) }
  At-skip (x ∷ p) off n rest e h =
      let e' : off + n ≡ (off + 1) + length p = omega arith in
      rw e' (At-skip p (off + 1) (length p) rest refl (At-suc off x (p ++ rest) h))

  -- A copy of `n` bytes at `off`.
  pub At-take :
      (p : List A) (off : ℕ) (n : ℕ) (rest : List A)
      → n ≤ length p
      → At xs off (p ++ rest)
      → take n (drop off xs) ≡ take n p
  At-take p off n rest le h = rw h.rest_is (take-append n p rest le)

  pub At-move : (off off' : ℕ) (rest : List A) → off ≡ off' → At xs off rest → At xs off' rest
  At-move off off' rest e h = rw e at h
