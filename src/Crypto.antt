-- ===== src/Crypto.antt =====
-- daemon/src/crypto.c: the master key, and encryption under it. Arguments are not NULL.
pub mod RoundTrip
use proxiflare.Prelude.{
  ℕ, ◌+◌, ◌-◌, ◌%◌, ◌^◌, Bool, true, false, Option, none, some, List, [], ◌++◌, ltb, if◌then◌else◌,
  Bytes, length, take, drop, replicate,
}
use proxiflare.Prelude.Int.{ℤ, to_int}

-- PF_SALT_LEN, PF_IV_LEN, PF_TAG_LEN and PF_KEY_LEN
abbrev pub salt_len : ℕ
salt_len = 16

abbrev pub iv_len : ℕ
iv_len = 12

abbrev pub tag_len : ℕ
tag_len = 16

abbrev pub key_len : ℕ
key_len = 32

-- What EVP_DecryptFinal_ex and the calls before it give.
pub data Opening : Type 0 where
  opened : Bytes → Opening
  forged : Opening
  unavailable : Opening

-- What crypto.c calls of libargon2 and of OpenSSL; `none` is an error of the library.
pub record Primitives : Type 0 where
  -- argon2id_hash_raw with the costs of crypto.c, by password and salt
  pub derive_key : Bytes → Bytes → Option Bytes
  -- AES-256-GCM, by key, nonce, plaintext and the `int` of its length: the ciphertext and the tag
  pub seal : Bytes → Bytes → Bytes → ℤ → Option (Bytes × Bytes)
  -- by key, nonce, ciphertext, the `int` of its length, and tag
  pub unseal : Bytes → Bytes → Bytes → ℤ → Bytes → Opening

-- `(int)` of a size_t: the lower 32 bits as a signed number.
abbrev pub int_of : ℕ → ℤ
int_of n = to_int (n % 2 ^ 32)

-- pf_crypto_t
pub record Crypto : Type 0 where
  pub key : Bytes
  pub salt : Bytes
  pub unlocked : Bool

-- PF_ERR_CRYPTO, PF_ERR_LOCKED and PF_ERR_AUTH
pub data Failure : Type 0 where
  err_crypto err_locked err_auth : Failure

pub data Result (A : Type 0) : Type 0 where
  ok : A → Result A
  fail : Failure → Result A

abbrev pub init : Crypto
init = record { key = replicate key_len 0; salt = replicate salt_len 0; unlocked = false }

unfoldable pub lock : Crypto → Crypto
lock c = record c { key = replicate key_len 0; unlocked = false }

module _ (lib : Primitives) where
  -- The salt is in place before the key is derived, and stays if that fails.
  unfoldable pub unlock : Crypto → Bytes → Bytes → Result (Unit {0}) × Crypto
  unlock c password salt = elim (lib.derive_key password salt) [
    | none ↦ (fail err_crypto, record c { salt = salt })
    | some key ↦ (ok tt, record { key = key; salt = salt; unlocked = true })
  ]

  -- `random` is what RAND_bytes gives where it is asked for a salt; where it fails it is taken to
  -- leave the old one.
  unfoldable pub set_master :
      Crypto → Bytes → Option Bytes → Option Bytes → Result (Unit {0}) × Crypto
  unfolding unlock
  set_master c password (some salt) random = unlock c password salt
  set_master c password none none = (fail err_crypto, c)
  set_master c password none (some salt) = unlock c password salt

  abbrev pub sealed : Bytes → Option (Bytes × Bytes) → Result Bytes
  sealed iv none = fail err_crypto
  sealed iv (some (ciphertext, tag)) = ok (iv ++ (ciphertext ++ tag))

  -- `random` is what RAND_bytes gives for the nonce.
  unfoldable pub encrypt : Crypto → Option Bytes → Bytes → Result Bytes
  encrypt c none plain = if c.unlocked then fail err_crypto else fail err_locked
  encrypt c (some iv) plain =
      if c.unlocked
      then sealed iv (lib.seal c.key iv plain (int_of (length plain)))
      else fail err_locked

  abbrev pub unsealed : Opening → Result Bytes
  unsealed (opened plain) = ok plain
  unsealed forged = fail err_auth
  unsealed unavailable = fail err_crypto

  unfoldable pub decrypt : Crypto → Bytes → Result Bytes
  decrypt c input =
      let ct_len = length input - iv_len - tag_len in
      if c.unlocked
      then if ltb (length input) (iv_len + tag_len)
        then fail err_crypto
        else unsealed (
            lib.unseal c.key (take iv_len input) (take ct_len (drop iv_len input)) (int_of ct_len)
              (take tag_len (drop (iv_len + ct_len) input)))
      else fail err_locked

  abbrev pub salted : Bytes → Result Bytes → Result Bytes
  salted salt (fail e) = fail e
  salted salt (ok enc) = ok (salt ++ enc)

  -- The context is local, and locked again at the end.
  abbrev pub exported : Result (Unit {0}) × Crypto → Option Bytes → Bytes → Result Bytes
  exported (fail e, c) iv plain = fail e
  exported (ok u, c) iv plain = salted c.salt (encrypt c iv plain)

  unfoldable pub export_encrypt : Bytes → Option Bytes → Option Bytes → Bytes → Result Bytes
  unfolding set_master encrypt
  export_encrypt password random iv plain = exported (set_master init password none random) iv plain

  abbrev pub imported : Result (Unit {0}) × Crypto → Bytes → Result Bytes
  imported (fail e, c) enc = fail e
  imported (ok u, c) enc = decrypt c enc

  unfoldable pub export_decrypt : Bytes → Bytes → Result Bytes
  unfolding unlock decrypt
  export_decrypt password input =
      if ltb (length input) (salt_len + iv_len + tag_len)
      then fail err_crypto
      else imported (unlock init password (take salt_len input)) (drop salt_len input)
