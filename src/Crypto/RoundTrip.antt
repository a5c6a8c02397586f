-- ===== src/Crypto/RoundTrip.antt =====
-- What was encrypted is decrypted again with the same password.
use proxiflare.Prelude.{
  ℕ, ◌+◌, ◌-◌, ◌%◌, ◌^◌, ◌≤◌, ◌<◌, ◌≡◌, refl, sym, ap, ◌∙◌, inl, inr, true, false, Option, none,
  some, [], ◌∷◌, ◌++◌, ltb, Bytes, length, take, drop, take-append, take-all, length-append,
  Option-cases, le→ltb, arith,
}
use mathlib.Core.List.{append_assoc}
use proxiflare.Prelude.Int.{ℤ, pos}
use proxiflare.Crypto.{
  salt_len, iv_len, tag_len, opened, int_of, err_crypto, Primitives, Crypto, err_locked, Result, ok,
  fail, init, lock, unlock, set_master, sealed, unsealed, encrypt, decrypt, salted, export_encrypt,
  export_decrypt,
}

drop-append : (a b : Bytes) (n : ℕ) → n ≡ length a → drop n (a ++ b) ≡ b
drop-append [] b n e = rw e refl
drop-append (x ∷ a) b n e = rw e (drop-append a b (length a) refl)

take-front : (a b : Bytes) (n : ℕ) → n ≡ length a → take n (a ++ b) ≡ a
take-front a b n e = take-append n a b (omega arith) ∙ take-all n a (omega arith)

int_of-pos : (n : ℕ) → n < 2 ^ 31 → int_of n ≡ pos n
int_of-pos n lt =
    let whole : n % 2 ^ 32 ≡ n = omega arith in
    let small : ltb n (2 ^ 31) ≡ true = ground arith in rw (whole, small) refl

module _ (lib : Primitives)
    (tag_size : (key iv plain ciphertext tag : Bytes) (n : ℤ)
      → lib.seal key iv plain n ≡ some (ciphertext, tag)
      → length tag ≡ tag_len)
    (same_size : (key iv plain ciphertext tag : Bytes)
      → lib.seal key iv plain (pos (length plain)) ≡ some (ciphertext, tag)
      → length ciphertext ≡ length plain)
    (unseals : (key iv plain ciphertext tag : Bytes)
      → lib.seal key iv plain (pos (length plain)) ≡ some (ciphertext, tag)
      → lib.unseal key iv ciphertext (pos (length ciphertext)) tag ≡ opened plain) where
  sealed_parts :
      (iv out : Bytes) (o : Option (Bytes × Bytes))
      → sealed lib iv o ≡ ok out
      → (ciphertext : Bytes) × (tag : Bytes) × (o ≡ some (ciphertext, tag))
        × (out ≡ iv ++ (ciphertext ++ tag))
  sealed_parts iv out none e = cc
  sealed_parts iv out (some (ciphertext, tag)) e =
      let same : iv ++ (ciphertext ++ tag) ≡ out = cc in (ciphertext, tag, refl, sym same)

  decrypt_parts :
      (c : Crypto) (iv ct tag : Bytes)
      → c.unlocked ≡ true
      → length iv ≡ iv_len
      → length tag ≡ tag_len
      → decrypt lib c (iv ++ (ct ++ tag))
        ≡ unsealed lib (lib.unseal c.key iv ct (int_of (length ct)) tag)
  unfolding decrypt
  decrypt_parts c iv ct tag u n m =
      let out = iv ++ (ct ++ tag) in
      let total : length out ≡ iv_len + (length ct + tag_len) =
        length-append iv (ct ++ tag) ∙ omega (arith, length-append ct tag) in
      let body : length out - iv_len - tag_len ≡ length ct = omega arith in
      let front : take iv_len out ≡ iv = take-front iv (ct ++ tag) iv_len (sym n) in
      let rest : drop iv_len out ≡ ct ++ tag = drop-append iv (ct ++ tag) iv_len (sym n) in
      let mid : take (length ct) (ct ++ tag) ≡ ct = take-front ct tag (length ct) refl in
      let last : take tag_len (drop (iv_len + length ct) out) ≡ tag =
        ap (λ t. take tag_len t)
          (ap (λ t. drop (iv_len + length ct) t) (sym (append_assoc iv ct tag))
            ∙ drop-append (iv ++ ct) tag (iv_len + length ct) (omega (arith, length-append iv ct)))
        ∙ take-all tag_len tag (omega arith) in
      rw
        (
          decrypt,
          u,
          le→ltb (length out) (iv_len + tag_len) (omega arith),
          body,
          front,
          rest,
          mid,
          last,
        )
        refl

  -- A message under some key, with a nonce of its size, is decrypted under the same key.
  decrypt-encrypt :
      (c c' : Crypto) (iv plain out : Bytes)
      → c.unlocked ≡ true
      → c'.unlocked ≡ true
      → c'.key ≡ c.key
      → length iv ≡ iv_len
      → length plain < 2 ^ 31
      → encrypt lib c (some iv) plain ≡ ok out
      → (decrypt lib c' out ≡ ok plain) × (iv_len + tag_len ≤ length out)
  unfolding encrypt
  decrypt-encrypt c c' iv plain out u u' k n lt e =
      let e' : sealed lib iv (lib.seal c.key iv plain (pos (length plain))) ≡ ok out =
        (rw (encrypt, u, int_of-pos (length plain) lt) at e) in
      let (ct, tag, s, o) = sealed_parts iv out (lib.seal c.key iv plain (pos (length plain))) e' in
      let m : length tag ≡ tag_len = tag_size c.key iv plain ct tag (pos (length plain)) s in
      let same : length ct ≡ length plain = same_size c.key iv plain ct tag s in
      let back : lib.unseal c.key iv ct (pos (length ct)) tag ≡ opened plain =
        unseals c.key iv plain ct tag s in
      let small : int_of (length ct) ≡ pos (length ct) = int_of-pos (length ct) (omega arith) in
      (
        ap (decrypt lib c') o
            ∙ decrypt_parts c' iv ct tag u' n m
            ∙ ap (λ z. unsealed lib (lib.unseal c'.key iv ct z tag)) small
            ∙ ap (λ key. unsealed lib (lib.unseal key iv ct (pos (length ct)) tag)) k
            ∙ ap (unsealed lib) back,
        let total : length out ≡ iv_len + (length ct + tag_len) =
              ap length o ∙ length-append iv (ct ++ tag) ∙ omega (arith, length-append ct tag) in
            omega arith,
      )

  unlock_key :
      (c c' : Crypto) (password salt : Bytes)
      → unlock lib c password salt ≡ (ok tt, c')
      → (lib.derive_key password salt ≡ some c'.key) × (c'.salt ≡ salt) × (c'.unlocked ≡ true)
  unfolding unlock
  unlock_key c c' password salt e = elim (Option-cases (lib.derive_key password salt)) [
    | inl z ↦
        let w : (fail err_crypto, record c { salt = salt }) ≡ (ok tt, c') = (rw (unlock, z) at e) in
        let f : fail err_crypto ≡ ok tt = ap (λ (p : Result (Unit {0}) × Crypto). p.0) w in cc
    | inr (key, z) ↦
        let w : (ok tt, record { key = key; salt = salt; unlocked = true }) ≡ (ok tt, c') =
          (rw (unlock, z) at e) in
        let same : record { key = key; salt = salt; unlocked = true } ≡ c' = ap (λ p. p.1) w in
        (
          z ∙ ap (λ x. some x.key) same,
          ap (λ x. x.salt) (sym same),
          ap (λ x. x.unlocked) (sym same),
        )
  ]

  unlock-some :
      (c : Crypto) (password salt key : Bytes)
      → lib.derive_key password salt ≡ some key
      → unlock lib c password salt ≡ (ok tt, record { key = key; salt = salt; unlocked = true })
  unfolding unlock
  unlock-some c password salt key e = rw (unlock, e) refl

  unlock-none :
      (c : Crypto) (password salt : Bytes)
      → lib.derive_key password salt ≡ none
      → unlock lib c password salt ≡ (fail err_crypto, record c { salt = salt })
  unfolding unlock
  unlock-none c password salt e = rw (unlock, e) refl

  salted_parts :
      (salt out : Bytes) (r : Result Bytes)
      → salted lib salt r ≡ ok out
      → (enc : Bytes) × (r ≡ ok enc) × (out ≡ salt ++ enc)
  salted_parts salt out (fail e) h = cc
  salted_parts salt out (ok enc) h = let same : salt ++ enc ≡ out = cc in (enc, refl, sym same)

  -- An export of less than 2^31 bytes is read back with the password that it was made with, provided
  -- that RAND_bytes gave a salt of 16 bytes and a nonce of 12, that AES-GCM makes tags of 16 bytes
  -- and ciphertexts as long as their plaintexts, and that it opens what it sealed.
  pub export_decrypt-export_encrypt :
      (password salt iv plain out : Bytes)
      → length salt ≡ salt_len
      → length iv ≡ iv_len
      → length plain < 2 ^ 31
      → export_encrypt lib password (some salt) (some iv) plain ≡ ok out
      → export_decrypt lib password out ≡ ok plain
  unfolding export_encrypt export_decrypt set_master
  export_decrypt-export_encrypt password salt iv plain out n m lt e =
      elim (Option-cases (lib.derive_key password salt)) [
        | inl z ↦
            let stuck : unlock lib init password salt
                ≡ (fail err_crypto, record init { salt = salt }) =
              unlock-none init password salt z in
            let w : fail err_crypto ≡ ok out = (rw (export_encrypt, set_master, stuck) at e) in cc
        | inr (key, z) ↦
            let c : Crypto = record { key = key; salt = salt; unlocked = true } in
            let there : unlock lib init password salt ≡ (ok tt, c) =
              unlock-some init password salt key z in
            let w : salted lib salt (encrypt lib c (some iv) plain) ≡ ok out =
              (rw (export_encrypt, set_master, there) at e) in
            let (enc, s, o) = salted_parts salt out (encrypt lib c (some iv) plain) w in
            let (back, long) = decrypt-encrypt c c iv plain enc refl refl refl m lt s in
            let total : length out ≡ length salt + length enc =
              ap length o ∙ length-append salt enc in
            let short : ltb (length out) (salt_len + iv_len + tag_len) ≡ false =
              le→ltb (length out) (salt_len + iv_len + tag_len) (omega arith) in
            let front : take salt_len out ≡ salt =
              ap (take salt_len) o ∙ take-front salt enc salt_len (sym n) in
            let rest : drop salt_len out ≡ enc =
              ap (drop salt_len) o ∙ drop-append salt enc salt_len (sym n) in
            rw (export_decrypt, short, front, rest, there) back
      ]

  -- A context whose master password was set encrypts a message of less than 2^31 bytes that the cipher
  -- seals, as the nonce, the ciphertext and the tag; locked, it decrypts nothing, and unlocked again
  -- with the same password and its stored salt it decrypts that message. The nonce has 12 bytes,
  -- AES-GCM makes tags of 16 bytes and ciphertexts as long as their plaintexts, and it opens what it
  -- sealed.
  pub decrypt_relocked :
      (c0 c : Crypto) (password salt iv plain ct tag : Bytes)
      → set_master lib c0 password none (some salt) ≡ (ok tt, c)
      → length iv ≡ iv_len
      → length plain < 2 ^ 31
      → lib.seal c.key iv plain (pos (length plain)) ≡ some (ct, tag)
      → let out = iv ++ (ct ++ tag) in
        (encrypt lib c (some iv) plain ≡ ok out)
        × (decrypt lib (lock c) out ≡ fail err_locked)
        × ((c' : Crypto) × (unlock lib (lock c) password c.salt ≡ (ok tt, c'))
            × (decrypt lib c' out ≡ ok plain))
  unfolding set_master lock decrypt encrypt
  decrypt_relocked c0 c password salt iv plain ct tag e n lt s =
      let (k, at, u) = unlock_key c0 c password salt e in
      let c' : Crypto = record { key = c.key; salt = c.salt; unlocked = true } in
      let again : lib.derive_key password c.salt ≡ some c.key =
        ap (λ t. lib.derive_key password t) at ∙ k in
      let made : encrypt lib c (some iv) plain ≡ ok (iv ++ (ct ++ tag)) =
        rw (encrypt, u, int_of-pos (length plain) lt, s) refl in
      (
        made,
        refl,
        (
          c',
          unlock-some (lock c) password c.salt c.key again,
          (decrypt-encrypt c c' iv plain (iv ++ (ct ++ tag)) u refl refl n lt made).0,
        ),
      )
