-- ===== src/Tests/OfCrypto.antt =====
-- A cipher that adds a tag and changes nothing.
use proxiflare.Prelude.{
  ◌≡◌, refl, true, Option, none, some, [], Bytes, codes, length, replicate, arith, ◌++◌, ap, sym,
}
use proxiflare.Prelude.Int.{ℤ, pos}
use proxiflare.Crypto.{
  tag_len, opened, Primitives, Crypto, err_locked, ok, fail, init, lock, unlock, set_master,
  encrypt, decrypt, export_encrypt, export_decrypt,
}
use proxiflare.Crypto.RoundTrip.{export_decrypt-export_encrypt, decrypt_relocked}

abbrev lib : Primitives
lib = record {
  derive_key = λ password salt. some (password ++ salt);
  seal = λ key iv plain n. some (plain, replicate 16 0);
  unseal = λ key iv ciphertext n tag. opened ciphertext;
}

abbrev pair_or : Option (Bytes × Bytes) → Bytes × Bytes
pair_or none = ([], [])
pair_or (some p) = p

tag_size :
    (key iv plain ciphertext tag : Bytes) (n : ℤ)
    → lib.seal key iv plain n ≡ some (ciphertext, tag)
    → length tag ≡ tag_len
tag_size key iv plain ciphertext tag n e = ap (λ o. length (pair_or o).1) (sym e)

same_size :
    (key iv plain ciphertext tag : Bytes)
    → lib.seal key iv plain (pos (length plain)) ≡ some (ciphertext, tag)
    → length ciphertext ≡ length plain
same_size key iv plain ciphertext tag e = ap (λ o. length (pair_or o).0) (sym e)

unseals :
    (key iv plain ciphertext tag : Bytes)
    → lib.seal key iv plain (pos (length plain)) ≡ some (ciphertext, tag)
    → lib.unseal key iv ciphertext (pos (length ciphertext)) tag ≡ opened plain
unseals key iv plain ciphertext tag e = ap (λ o. opened (pair_or o).0) (sym e)

abbrev salt : Bytes
salt = replicate 16 1

abbrev iv : Bytes
iv = replicate 12 2

abbrev message : Bytes
message = codes "proxies"

made :
    export_encrypt lib (codes "pw") (some salt) (some iv) message
    ≡ ok (salt ++ (iv ++ (message ++ replicate 16 0)))
unfolding export_encrypt
made = refl

export_decrypt-export_encrypt_example :
    export_decrypt lib (codes "pw") (salt ++ (iv ++ (message ++ replicate 16 0))) ≡ ok message
export_decrypt-export_encrypt_example =
    export_decrypt-export_encrypt lib tag_size same_size unseals (codes "pw") salt iv message
      (salt ++ (iv ++ (message ++ replicate 16 0))) refl refl (omega arith) made

abbrev master : Crypto
master = record { key = codes "pw" ++ salt; salt = salt; unlocked = true }

set : set_master lib init (codes "pw") none (some salt) ≡ (ok tt, master)
unfolding set_master
set = refl

decrypt_relocked_example :
    (encrypt lib master (some iv) message ≡ ok (iv ++ (message ++ replicate 16 0)))
    × (decrypt lib (lock master) (iv ++ (message ++ replicate 16 0)) ≡ fail err_locked)
    × ((c' : Crypto) × (unlock lib (lock master) (codes "pw") salt ≡ (ok tt, c'))
        × (decrypt lib c' (iv ++ (message ++ replicate 16 0)) ≡ ok message))
decrypt_relocked_example =
    decrypt_relocked lib tag_size same_size unseals init master (codes "pw") salt iv message message
      (replicate 16 0) set refl (omega arith) refl
