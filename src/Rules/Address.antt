-- ===== src/Rules/Address.antt =====
-- What the address and port patterns of `pf_match_ip` and `pf_match_port` match.
use proxiflare.Prelude.{
  ℕ, zero, suc, ◌+◌, ◌-◌, ◌*◌, ◌/◌, ◌^◌, ◌≤◌, ◌<◌, ◌≡◌, ◌↔◌, refl, ap, true, false, ◌&&◌, some, ◌∷◌,
  ◌++◌, ◌==◌, leb, Bytes, length, arith, ==_iff, take-all, le→leb, contains_byte, split_at-append,
  split_at-none,
}
use native.Mathlib.Nat.{div-mul-le_self, lt-div-mul-add, div-eq_of_lt-le, div-eq_of_lt, pow-suc}
use proxiflare.Prelude.Int.{pos, atoi}
use proxiflare.Libc.{Libc}
use proxiflare.Rules.Match.{masked, match_cidr, match_range, match_host, match_ip}

-- The block of 2^(32 - prefix) addresses that holds `net`.
abbrev pub InBlock : ℕ → ℕ → ℕ → Type 0
InBlock net prefix host =
    (net / 2 ^ (32 - prefix) * 2 ^ (32 - prefix) ≤ host)
    × (host < net / 2 ^ (32 - prefix) * 2 ^ (32 - prefix) + 2 ^ (32 - prefix))

lt→leb : (a b : ℕ) → a < b → leb b a ≡ false
lt→leb a b h = ground arith

two_pow_pos : (n : ℕ) → 0 < 2 ^ n
two_pow_pos zero = omega arith
two_pow_pos (suc n) = let e = pow-suc 2 n in omega (arith, two_pow_pos n, e)

-- Two numbers with one quotient by `k` lie in one block of `k`.
block_iff :
    (k a b : ℕ) → 0 < k → ((a / k * k ≡ b / k * k) ↔ ((b / k * k ≤ a) × (a < b / k * k + k)))
block_iff k a b lt = (
  (λ e. (rw (← e) (div-mul-le_self a k), rw (← e) (lt-div-mul-add lt))),
  λ h. ap (λ q. q * k) (div-eq_of_lt-le {k = b / k} k {m = a} h.0 (omega arith)),
)

masked-suc : (x p : ℕ) → masked x (suc p) ≡ x / 2 ^ (32 - suc p) * 2 ^ (32 - suc p)
masked-suc x p = ground arith

masked_iff :
    (prefix host net : ℕ)
    → host < 2 ^ 32
    → net < 2 ^ 32
    → ((masked host prefix == masked net prefix) ≡ true) ↔ InBlock net prefix host
masked_iff zero host net lt lt' =
    let e : net / 2 ^ 32 ≡ 0 = div-eq_of_lt lt' in
    ((λ _. rw e (omega arith, omega arith)), λ _. refl)
masked_iff (suc p) host net lt lt' =
    let k = 2 ^ (32 - suc p) in
    let b = block_iff k host net (two_pow_pos (32 - suc p)) in
    rw (masked-suc host p, masked-suc net p)
      (
        (λ e. b.0 ((==_iff (host / k * k) (net / k * k)).0 e)),
        λ h. (==_iff (host / k * k) (net / k * k)).1 (b.1 h),
      )

module _ (libc : Libc) where
  match_ip-host :
      (ip pattern : Bytes) (host : ℕ)
      → libc.inet_pton ip ≡ some host
      → match_ip libc pattern ip ≡ match_host libc host pattern
  unfolding match_ip match_host
  match_ip-host ip pattern host e = rw (e, match_ip)

  match_host-cidr :
      (host : ℕ) (net_str prefix_str : Bytes)
      → contains_byte b'/' net_str ≡ false
      → match_host libc host (net_str ++ b'/' ∷ prefix_str)
        ≡ match_cidr libc host net_str prefix_str
  unfolding match_host match_cidr
  match_host-cidr host net_str prefix_str e =
      let s = split_at-append b'/' net_str prefix_str e in rw (s, match_host) (rw s)

  match_host-range :
      (host : ℕ) (start_str end_str : Bytes)
      → contains_byte b'/' (start_str ++ b'-' ∷ end_str) ≡ false
      → contains_byte b'-' start_str ≡ false
      → match_host libc host (start_str ++ b'-' ∷ end_str) ≡ match_range libc host start_str end_str
  unfolding match_host match_range
  match_host-range host start_str end_str e e' =
      let s = split_at-append b'-' start_str end_str e' in
      rw (split_at-none b'/' (start_str ++ b'-' ∷ end_str) e, match_host) (rw s (rw s))

  match_cidr_value :
      (host net prefix : ℕ) (net_str prefix_str : Bytes)
      → length net_str < 48
      → libc.inet_pton net_str ≡ some net
      → atoi prefix_str ≡ pos prefix
      → prefix ≤ 32
      → match_cidr libc host net_str prefix_str ≡ (masked host prefix == masked net prefix)
  unfolding match_cidr
  match_cidr_value host net prefix net_str prefix_str short known prefix_is fits =
      rw
        (
          lt→leb (length net_str) 48 short,
          prefix_is,
          le→leb (prefix + 0) 32 (omega arith),
          known,
          le→leb 0 (prefix + 0) (omega arith),
        )
        (rw prefix_is)

  match_range_value :
      (host start_h end_h : ℕ) (start_str end_str : Bytes)
      → length start_str < 48
      → length end_str < 48
      → libc.inet_pton start_str ≡ some start_h
      → libc.inet_pton end_str ≡ some end_h
      → match_range libc host start_str end_str ≡ (leb start_h host && leb host end_h)
  unfolding match_range
  match_range_value host start_h end_h start_str end_str short short' known known' =
      rw (lt→leb (length start_str) 48 short, known, take-all 47 end_str (omega arith), known')

module _ (libc : Libc) (ip : Bytes) (host : ℕ) (parsed : libc.inet_pton ip ≡ some host) where
  -- "a.b.c.d/prefix" matches exactly the addresses of the block of 2^(32 - prefix) that holds
  -- a.b.c.d, the empty mask (prefix 0) and the full one (32) included.
  pub match_ip_cidr :
      (net_str prefix_str : Bytes) (net prefix : ℕ)
      → contains_byte b'/' net_str ≡ false
      → length net_str < 48
      → libc.inet_pton net_str ≡ some net
      → atoi prefix_str ≡ pos prefix
      → prefix ≤ 32
      → host < 2 ^ 32
      → net < 2 ^ 32
      → (match_ip libc (net_str ++ b'/' ∷ prefix_str) ip ≡ true) ↔ InBlock net prefix host
  match_ip_cidr net_str prefix_str net prefix no_slash short known prefix_is fits lt lt' =
      rw
        (
          match_ip-host libc ip (net_str ++ b'/' ∷ prefix_str) host parsed,
          match_host-cidr libc host net_str prefix_str no_slash,
          match_cidr_value libc host net prefix net_str prefix_str short known prefix_is fits,
        )
        (masked_iff prefix host net lt lt')

  -- "start-end" matches exactly the addresses from start to end, both included.
  pub match_ip_range :
      (start_str end_str : Bytes) (start_h end_h : ℕ)
      → contains_byte b'/' (start_str ++ b'-' ∷ end_str) ≡ false
      → contains_byte b'-' start_str ≡ false
      → length start_str < 48
      → length end_str < 48
      → libc.inet_pton start_str ≡ some start_h
      → libc.inet_pton end_str ≡ some end_h
      → (match_ip libc (start_str ++ b'-' ∷ end_str) ip ≡ true)
        ↔ ((start_h ≤ host) × (host ≤ end_h))
  match_ip_range start_str end_str start_h end_h no_slash no_dash short short' known known' =
      rw
        (
          match_ip-host libc ip (start_str ++ b'-' ∷ end_str) host parsed,
          match_host-range libc host start_str end_str no_slash no_dash,
          match_range_value libc host start_h end_h start_str end_str short short' known known',
        )
        ((λ h. ground arith), λ h. ground arith)
