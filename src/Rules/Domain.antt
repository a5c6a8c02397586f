-- ===== src/Rules/Domain.antt =====
-- What the domain patterns of `pf_match_domain` match.
use proxiflare.Prelude.{
  ℕ, zero, suc, ◌+◌, ◌-◌, ◌≤◌, ◌<◌, ◌≡◌, ◌≢◌, ◌⊎◌, inl, inr, ◌↔◌, refl, sym, ap, ◌∙◌, true, false,
  [], ◌∷◌, ◌++◌, Bytes, length, arith, Bool-cases, ==_ne, take, drop, get_or, eq_ci, eq_ci_iff,
  lower, length-lower, length-append, length-take, take-append-drop, take-append, take-all, le→leb,
  lt→ltb,
}
use proxiflare.Libc.{Libc}
use proxiflare.Rules.Match.{
  domain_max, search_needle, match_contains, match_suffix, match_domain_single,
}

-- Where `eq_ci` holds, the lengths agree.
eq_ci_length : (a b : Bytes) → lower a ≡ lower b → length a ≡ length b
eq_ci_length a b e = sym (length-lower a) ∙ ap length e ∙ length-lower b

drop-append : (a b : Bytes) → drop (length a) (a ++ b) ≡ b
drop-append [] b = refl
drop-append (x ∷ a) b = drop-append a b

-- A hit of the loop at some index among its rounds.
search_hit :
    (rounds i : ℕ) (needle domain : Bytes)
    → search_needle rounds i needle domain ≡ true
    → (j : ℕ) × (i ≤ j)
      × (j < i + rounds)
      × (lower (take (length needle) (drop j domain)) ≡ lower needle)
unfolding search_needle
search_hit zero i needle domain h = cc
search_hit (suc rounds) i needle domain h =
    elim (Bool-cases (eq_ci (take (length needle) (drop i domain)) needle)) [
      | inl e ↦ (i, omega arith, omega arith, (eq_ci_iff _ _).0 e)
      | inr e ↦
          let later : search_needle rounds (i + 1) needle domain ≡ true = rw e at h in
          let (j, le, lt, m) = search_hit rounds (i + 1) needle domain later in
          (j, omega arith, omega arith, m)
    ]

search_found :
    (rounds i j : ℕ) (needle domain : Bytes)
    → i ≤ j
    → j < i + rounds
    → lower (take (length needle) (drop j domain)) ≡ lower needle
    → search_needle rounds i needle domain ≡ true
unfolding search_needle
search_found zero i j needle domain le lt m = absurd (omega arith)
search_found (suc rounds) i j needle domain le lt m =
    elim (Bool-cases (eq_ci (take (length needle) (drop i domain)) needle)) [
      | inl e ↦ rw e refl
      | inr e ↦
          rw e (search_found rounds (i + 1) j needle domain (after i j le (miss e)) (omega arith) m)
    ]
  where
    miss : eq_ci (take (length needle) (drop i domain)) needle ≡ false → i ≢ j
    miss e same =
        let t = (eq_ci_iff (take (length needle) (drop j domain)) needle).1 m in
        let e' = rw same at e in cc

    after : (a b : ℕ) → a ≤ b → a ≢ b → a + 1 ≤ b
    after a b l n = omega arith

-- The domain holds a copy of the needle, up to the case of letters.
pub record Holds (needle domain : Bytes) : Type 0 where
  pub pre : Bytes
  pub mid : Bytes
  pub post : Bytes
  pub split : domain ≡ pre ++ (mid ++ post)
  pub same : lower mid ≡ lower needle

module _ (needle domain : Bytes) where
  rounds : ℕ
  rounds = length domain - length needle + 1

  contains_cases :
      match_contains needle domain ≡ true
      → (length needle ≡ 0)
        ⊎ ((length needle ≤ length domain) × (search_needle rounds 0 needle domain ≡ true))
  unfolding match_contains rounds
  contains_cases h = ground arith

  contains_empty : length needle ≡ 0 → match_contains needle domain ≡ true
  unfolding match_contains
  contains_empty e = ground arith

  contains_found :
      length needle ≤ domain_max
      → length needle ≤ length domain
      → search_needle rounds 0 needle domain ≡ true
      → match_contains needle domain ≡ true
  unfolding match_contains rounds
  contains_found a b c = ground arith

  match_contains-Holds : match_contains needle domain ≡ true → Holds needle domain
  unfolding rounds
  match_contains-Holds h = elim (contains_cases h) [
    | inl e ↦ record { pre = []; mid = []; post = domain; split = refl; same = empty needle e }
    | inr (le, f) ↦
        let (j, _, lt, m) = search_hit rounds 0 needle domain f in
        record {
          pre = take j domain;
          mid = take (length needle) (drop j domain);
          post = drop (length needle) (drop j domain);
          split =
              sym (take-append-drop j domain)
              ∙ ap (λ k. take j domain ++ k)
                  (sym (take-append-drop (length needle) (drop j domain)));
          same = m;
        }
  ]
    where
      empty : (s : Bytes) → length s ≡ 0 → lower [] ≡ lower s
      empty [] e = refl
      empty (x ∷ s) e = absurd (omega arith)

  Holds-match_contains :
      length needle ≤ domain_max → Holds needle domain → match_contains needle domain ≡ true
  unfolding rounds
  Holds-match_contains fits h =
      let n : length h.mid ≡ length needle = eq_ci_length h.mid needle h.same in
      let total : length domain ≡ length h.pre + (length h.mid + length h.post) =
        ap length h.split
        ∙ omega (arith, length-append h.pre (h.mid ++ h.post), length-append h.mid h.post) in
      contains_found fits (omega arith) (
        search_found rounds 0 (length h.pre) needle domain (omega arith) (omega arith) (
          rw (h.split, drop-append h.pre (h.mid ++ h.post), ← n)
            (ap lower (
                take-append (length h.mid) h.mid h.post (omega arith)
                ∙ take-all (length h.mid) h.mid (omega arith))
              ∙ h.same)))

-- The domain is the base, or ends with a dot and the base behind at least one byte more.
unfoldable pub IsUnder : Bytes → Bytes → Type 0
IsUnder base domain =
    (lower domain ≡ lower base)
    ⊎ ((pre sfx : Bytes) × (pre ≢ []) × (domain ≡ pre ++ sfx) × (lower sfx ≡ lower (b'.' ∷ base)))

length_pos : (s : Bytes) → s ≢ [] → 0 < length s
length_pos [] n = absurd (n refl)
length_pos (x ∷ s) n = omega arith

module _ (base domain : Bytes) where
  match_suffix-IsUnder : match_suffix (b'.' ∷ base) domain ≡ true → IsUnder base domain
  unfolding match_suffix IsUnder
  match_suffix-IsUnder h = elim (Bool-cases (eq_ci domain base)) [
    | inl e ↦ inl ((eq_ci_iff domain base).0 e)
    | inr e ↦
        let (lt, m) = split e h in
        let k = length domain - suc (length base) in
        inr (
          take k domain,
          drop k domain,
          (λ z.
              let t : length (take k domain) ≡ 0 = ap length z in
              omega (arith, length-take k domain)),
          sym (take-append-drop k domain),
          (eq_ci_iff (drop k domain) (b'.' ∷ base)).0 m,
        )
  ]
    where
      split :
          eq_ci domain base ≡ false
          → match_suffix (b'.' ∷ base) domain ≡ true
          → (suc (length base) < length domain)
            × (eq_ci (drop (length domain - suc (length base)) domain) (b'.' ∷ base) ≡ true)
      split e h = ground arith

  IsUnder-match_suffix : IsUnder base domain → match_suffix (b'.' ∷ base) domain ≡ true
  unfolding match_suffix IsUnder
  IsUnder-match_suffix (inl e) = rw ((eq_ci_iff domain base).1 e)
  IsUnder-match_suffix (inr (pre, sfx, ne, e, same)) =
      let n : length sfx ≡ suc (length base) = eq_ci_length sfx (b'.' ∷ base) same in
      let total : length domain ≡ length pre + length sfx = ap length e ∙ length-append pre sfx in
      let at : length domain - suc (length base) ≡ length pre = omega arith in
      let tail : drop (length domain - suc (length base)) domain ≡ sfx =
        rw (at, e) (drop-append pre sfx) in
      let hit : eq_ci (drop (length domain - suc (length base)) domain) (b'.' ∷ base) ≡ true =
        (eq_ci_iff (drop (length domain - suc (length base)) domain) (b'.' ∷ base)).1
          (ap lower tail ∙ same) in
      elim (Bool-cases (eq_ci domain base)) [
        | inl y ↦ rw y
        | inr y ↦
            rw (
              y,
              lt→ltb (suc (length base)) (length domain) (omega (arith, length_pos pre ne)),
              hit,
            )
      ]

get_or-last : (s : Bytes) (x d : ℕ) (n : ℕ) → n ≡ length s → get_or (s ++ x ∷ []) n d ≡ x
get_or-last [] x d n e = rw e
get_or-last (y ∷ s) x d n e = rw e (get_or-last s x d (length s) refl)

abbrev pub starred : Bytes → Bytes
starred needle = b'*' ∷ (needle ++ b'*' ∷ [])

module _ (libc : Libc) (domain : Bytes) where
  single-starred :
      (needle : Bytes)
      → match_domain_single libc (starred needle) domain ≡ match_contains needle domain
  unfolding match_domain_single
  single-starred needle =
      let n : length (needle ++ b'*' ∷ []) ≡ length needle + 1 = length-append needle (b'*' ∷ []) in
      let at : suc (length (needle ++ b'*' ∷ [])) - 1 ≡ suc (length needle) = omega arith in
      let cut : suc (length (needle ++ b'*' ∷ [])) - 2 ≡ length needle = omega arith in
      let last : get_or (starred needle) (suc (length needle)) 0 ≡ b'*' =
        get_or-last needle b'*' 0 (length needle) refl in
      let inner : take (length needle) (needle ++ b'*' ∷ []) ≡ needle =
        take-append (length needle) needle (b'*' ∷ []) (omega arith)
        ∙ take-all (length needle) needle (omega arith) in
      rw (at, last, le→leb 2 (suc (length (needle ++ b'*' ∷ []))) (omega arith), cut, inner) refl

  -- "*needle*" matches exactly the domains that hold the needle, letters compared without case.
  pub match_domain_single_contains :
      (needle : Bytes)
      → length needle ≤ domain_max
      → (match_domain_single libc (starred needle) domain ≡ true) ↔ Holds needle domain
  match_domain_single_contains needle fits =
      rw (single-starred needle)
        (match_contains-Holds needle domain, Holds-match_contains needle domain fits)

  single-suffix :
      (base : Bytes)
      → base ≢ []
      → get_or (b'*' ∷ b'.' ∷ base) (length base + 1) 0 ≢ b'*'
      → match_domain_single libc (b'*' ∷ b'.' ∷ base) domain ≡ match_suffix (b'.' ∷ base) domain
  unfolding match_domain_single
  single-suffix base ne last =
      let at : suc (suc (length base)) - 1 ≡ length base + 1 = omega arith in
      rw
        (
          at,
          ==_ne (get_or (b'*' ∷ b'.' ∷ base) (length base + 1) 0) b'*' last,
          lt→ltb 2 (suc (suc (length base))) (omega (arith, length_pos base ne)),
          le→leb 2 (suc (suc (length base))) (omega arith),
        )
        refl

  -- "*.base", if it does not end with a star, matches exactly the base itself and what lies under
  -- it at a dot, letters compared without case: "notbase" is not matched.
  pub match_domain_single_suffix :
      (base : Bytes)
      → base ≢ []
      → get_or (b'*' ∷ b'.' ∷ base) (length base + 1) 0 ≢ b'*'
      → (match_domain_single libc (b'*' ∷ b'.' ∷ base) domain ≡ true) ↔ IsUnder base domain
  match_domain_single_suffix base ne last =
      rw (single-suffix base ne last)
        (match_suffix-IsUnder base domain, IsUnder-match_suffix base domain)
