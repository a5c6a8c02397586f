-- ===== src/Sni/Reader.antt =====
-- The outcomes of the bounds-checked parser of daemon/src/sni.c, and its reading macros.
-- `reject` is an early `return 0`. `fault` is what the C code must never do: read a byte that is
-- not in the buffer (or, in a loop, run out of the rounds that its bound allows).
use proxiflare.Prelude.{
  ℕ, ◌+◌, ◌*◌, ◌%◌, ◌≤◌, ◌<◌, ◌≡◌, ◌≢◌, refl, Bool, true, false, some, none, arith, ltb,
  if◌then◌else◌, Bytes, length, take, drop, get_elem?, get_elem?-lt, Bool-cases, ltb→le, inl, inr,
}

pub data Parse {ℓ} (A : Type ℓ) : Type ℓ where
  done : A → Parse A
  reject : Parse A
  fault : Parse A

infixl 5 ◌>>=◌ ◌>>◌
abbrev pub ◌>>=◌ {ℓ κ} : {A : Type ℓ} {B : Type κ} → Parse A → (A → Parse B) → Parse B
done a >>= f = f a
reject >>= f = reject
fault >>= f = fault

abbrev pub ◌>>◌ {ℓ} : {B : Type ℓ} → Parse (Unit {0}) → Parse B → Parse B
m >> k = m >>= λ _. k

-- `if (!b) return 0;`
abbrev pub guard : Bool → Parse (Unit {0})
guard true = done tt
guard false = reject

-- U8(off), a plain read.
unfoldable pub u8 : Bytes → ℕ → Parse ℕ
u8 d off = elim (get_elem? d off) [ none ↦ fault | some b ↦ done b ]

-- U16BE(off)
unfoldable pub u16be : Bytes → ℕ → Parse ℕ
u16be d off = do hi ← u8 d off; lo ← u8 d (off + 1); done ((hi * 256 + lo) % 65536)

-- U24BE(off), whose value the caller drops.
unfoldable pub u24be : Bytes → ℕ → Parse ℕ
u24be d off = do
  b0 ← u8 d off
  b1 ← u8 d (off + 1)
  b2 ← u8 d (off + 2)
  done (b0 * 65536 + b1 * 256 + b2)

-- memcpy of `n` bytes from `off` on.
unfoldable pub copy : Bytes → ℕ → ℕ → Parse Bytes
copy d off n = if ltb (length d) (off + n) then fault else done (take n (drop off d))

-- CHECK(off, need)
unfoldable pub check : Bytes → ℕ → ℕ → Parse (Unit {0})
check d off need = if ltb (length d) (off + need) then reject else done tt

-- A parse that does not fault, and whose value satisfies `P` if there is one.
pub data Safe {ℓ κ} {A : Type ℓ} (P : A → Type κ) : Parse A → Type (ℓ ⊔ κ) where
  ok : {a : A} → P a → Safe P (done a)
  stop : Safe P reject

module _ {ℓ κ} {A : Type ℓ} {P : A → Type κ} where
  pub Safe-bind {ℓ' κ'} :
      {B : Type ℓ'} {Q : B → Type κ'} {m : Parse A} {f : A → Parse B}
      → Safe P m
      → ((a : A) → P a → Safe Q (f a))
      → Safe Q (m >>= f)
  Safe-bind (ok {a} p) k = k a p
  Safe-bind stop k = stop

  pub Safe-ne-fault : {m : Parse A} → Safe P m → m ≢ fault
  Safe-ne-fault (ok p) e = cc
  Safe-ne-fault stop e = cc

  pub Safe-done : {m : Parse A} {a : A} → Safe P m → m ≡ done a → P a
  Safe-done {a} (ok {a = b} p) e = let e' : b ≡ a = cc in rw e' at p
  Safe-done stop e = cc

  pub Safe-weaken {κ'} :
      {Q : A → Type κ'} {m : Parse A} → Safe P m → ((a : A) → P a → Q a) → Safe Q m
  Safe-weaken (ok {a} p) k = ok (k a p)
  Safe-weaken stop k = stop

module _ (d : Bytes) (off : ℕ) where
  pub u8-done : {b : ℕ} → get_elem? d off ≡ some b → u8 d off ≡ done b
  unfolding u8
  u8-done e = rw (e, u8)

  pub u8-Safe : off < length d → Safe (λ b. get_elem? d off ≡ some b) (u8 d off)
  u8-Safe h = let (b, e) = get_elem?-lt d off h in rw (u8-done e) (ok e)

  pub check-Safe : (need : ℕ) → Safe (λ _. off + need ≤ length d) (check d off need)
  unfolding check
  check-Safe need = elim (Bool-cases (ltb (length d) (off + need))) [
    | inl over ↦ rw over stop
    | inr fits ↦ rw fits (ok (ltb→le _ _ fits))
  ]

pub copy-Safe :
    (d : Bytes) (off n : ℕ)
    → off + n ≤ length d
    → Safe (λ out. out ≡ take n (drop off d)) (copy d off n)
unfolding copy
copy-Safe d off n h = let e : ltb (length d) (off + n) ≡ false = ground arith in rw e (ok refl)

pub u16be-Safe : (d : Bytes) (off : ℕ) → off + 1 < length d → Safe (λ n. n < 65536) (u16be d off)
unfolding u16be
u16be-Safe d off h =
    Safe-bind (u8-Safe d off (omega arith))
      λ a _. Safe-bind (u8-Safe d (off + 1) h) λ b _. ok (omega arith)

pub u24be-Safe : (d : Bytes) (off : ℕ) → off + 2 < length d → Safe (λ _. Unit {0}) (u24be d off)
unfolding u24be
u24be-Safe d off h = Safe-bind (u8-Safe d off (omega arith)) λ a _.
    Safe-bind (u8-Safe d (off + 1) (omega arith))
      λ b _. Safe-bind (u8-Safe d (off + 2) h) λ c _. ok tt

pub guard-Safe : (b : Bool) → Safe (λ _. b ≡ true) (guard b)
guard-Safe true = ok refl
guard-Safe false = stop
