-- ===== src/Tests/OfSni.antt =====
-- `pf_sni_extract` on a ClientHello for "ab.ch" with another extension in front of the name.
use proxiflare.Prelude.{◌≡◌, ◌≢◌, refl, [], ◌∷◌, codes, replicate, arith}
use proxiflare.Sni.{extract}
use proxiflare.Sni.Reader.{done, reject, fault}
use proxiflare.Sni.Wire.{Hello, IsHello, encode}
use proxiflare.Sni.Bounds.{extract-ne-fault}
use proxiflare.Sni.RoundTrip.{extract-encode}

abbrev pub hello : Hello
hello = record {
  record_minor = 1;
  hs_len = 0 ∷ 0 ∷ 70 ∷ [];
  version = 3 ∷ 3 ∷ [];
  random = replicate 32 7;
  session_id = [];
  suites = 0x13 ∷ 0x01 ∷ [];
  compression = 0 ∷ [];
  before = record { ext_type = 10; body = 0 ∷ 2 ∷ 0 ∷ 29 ∷ [] } ∷ [];
  name = codes "ab.ch";
  after = [];
  behind = [];
}

hello-IsHello : IsHello hello
hello-IsHello = record {
  hs_len_size = refl;
  version_size = refl;
  random_size = refl;
  others = (record { not_sni = omega arith; type_fits = omega arith; body_fits = omega arith }, tt);
  has_name = λ e. cc;
  record_fits = omega arith;
}

read_hello : extract (encode hello) 64 ≡ done (codes "ab.ch")
unfolding extract
read_hello = refl

read_short : extract (0x16 ∷ 0x03 ∷ 0x01 ∷ 0x00 ∷ 0x05 ∷ 0x01 ∷ []) 64 ≡ reject
unfolding extract
read_short = refl

extract-ne-fault_example : extract (encode hello) 64 ≢ fault
extract-ne-fault_example = extract-ne-fault (encode hello) 64

extract-encode_example : extract (encode hello) 3 ≡ done (codes "ab")
extract-encode_example = extract-encode hello 3 hello-IsHello (omega arith)
