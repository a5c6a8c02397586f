-- ===== src/Rules/Tokens.antt =====
-- Comma-separated domain patterns: `pf_match_domain` tries each of them.
use proxiflare.Prelude.{
  ◌-◌, ◌*◌, ◌<◌, ◌≡◌, ◌≢◌, refl, ap, ◌∙◌, Bool, true, false, ◌||◌, List, [], ◌∷◌, ◌++◌, ◌==◌, Bytes,
  length, arith, take-all, contains_byte,
}
use proxiflare.Libc.{Libc}
use proxiflare.Rules.Match.{
  domain_max, fields, trim, match_domain_single, match_any_token, match_domain,
}

-- How the user writes a list of patterns: each behind a comma and a blank.
abbrev pub joined : Bytes → List Bytes → Bytes
joined p [] = p
joined p (q ∷ qs) = p ++ b',' ∷ 32 ∷ joined q qs

-- A pattern with no comma and no blank at either end.
pub record IsPlain (p : Bytes) : Type 0 where
  pub no_comma : contains_byte b',' p ≡ false
  pub trimmed : trim p ≡ p
  pub not_empty : p ≢ []

abbrev pub AllPlain : List Bytes → Type 0
AllPlain [] = Unit
AllPlain (p ∷ ps) = IsPlain p × AllPlain ps

abbrev pub some_matches : (Bytes → Bool) → Bytes → List Bytes → Bool
some_matches f p [] = f p
some_matches f p (q ∷ qs) = f p || some_matches f q qs

fields-one : (p : Bytes) → contains_byte b',' p ≡ false → fields b',' p ≡ p ∷ []
unfolding fields contains_byte
fields-one [] h = refl
fields-one (x ∷ p) h = ground (arith, fields-one p)

fields-comma :
    (p rest : Bytes)
    → contains_byte b',' p ≡ false
    → fields b',' (p ++ b',' ∷ rest) ≡ p ∷ fields b',' rest
unfolding fields contains_byte
fields-comma [] rest h = refl
fields-comma (x ∷ p) rest h = ground (arith, fields-comma p rest)

-- A blank in front of the next token stays in front of it.
fields-blank :
    (p : Bytes) (ps : List Bytes) (w : Bytes)
    → fields b',' p ≡ w ∷ ps
    → fields b',' (32 ∷ p) ≡ (32 ∷ w) ∷ ps
unfolding fields
fields-blank p ps w e = rw e

contains_comma : (p rest : Bytes) → contains_byte b',' (p ++ b',' ∷ rest) ≡ true
unfolding contains_byte
contains_comma [] rest = refl
contains_comma (x ∷ p) rest = ground (arith, contains_comma p rest)

or_false : (b : Bool) → (b || false) ≡ b
or_false true = refl
or_false false = refl

module _ (libc : Libc) (domain : Bytes) where
  single : Bytes → Bool
  single p = match_domain_single libc p domain

  token_plain :
      (p : Bytes) (toks : List Bytes)
      → IsPlain p
      → match_any_token libc (p ∷ toks) domain ≡ (single p || match_any_token libc toks domain)
  unfolding match_any_token single
  token_plain p toks h = rw (h.trimmed, nonempty p h.not_empty)
    where
      nonempty : (s : Bytes) → s ≢ [] → (length s == 0) ≡ false
      nonempty [] n = absurd (n refl)
      nonempty (x ∷ s) n = ground arith

  token_blank :
      (p : Bytes) (toks : List Bytes)
      → IsPlain p
      → match_any_token libc ((32 ∷ p) ∷ toks) domain
        ≡ (single p || match_any_token libc toks domain)
  unfolding match_any_token single
  token_blank p toks h = token_plain p toks h

  -- A list of tokens as `fields` leaves them: all but the first have their blank.
  abbrev blanks : List Bytes → List Bytes
  blanks [] = []
  blanks (p ∷ ps) = (32 ∷ p) ∷ blanks ps

  fields-joined :
      (p : Bytes) (ps : List Bytes) → AllPlain (p ∷ ps) → fields b',' (joined p ps) ≡ p ∷ blanks ps
  fields-joined p [] h = fields-one p h.0.no_comma
  fields-joined p (q ∷ qs) h =
      fields-comma p (32 ∷ joined q qs) h.0.no_comma
      ∙ ap (◌∷◌ p) (fields-blank (joined q qs) (blanks qs) q (fields-joined q qs h.1))

  tokens_blank :
      (p : Bytes) (ps : List Bytes)
      → AllPlain (p ∷ ps)
      → match_any_token libc (blanks (p ∷ ps)) domain ≡ some_matches single p ps
  tokens_blank p [] h = token_blank p [] h.0 ∙ unfold match_any_token in or_false (single p)
  tokens_blank p (q ∷ qs) h =
      token_blank p (blanks (q ∷ qs)) h.0 ∙ ap (λ b. single p || b) (tokens_blank q qs h.1)

  tokens_all :
      (p : Bytes) (ps : List Bytes)
      → AllPlain (p ∷ ps)
      → match_any_token libc (p ∷ blanks ps) domain ≡ some_matches single p ps
  tokens_all p [] h = token_plain p [] h.0 ∙ unfold match_any_token in or_false (single p)
  tokens_all p (q ∷ qs) h =
      token_plain p (blanks (q ∷ qs)) h.0 ∙ ap (λ b. single p || b) (tokens_blank q qs h.1)

-- A list of patterns written with commas and blanks, if it fits the buffer, matches a domain
-- exactly if one of the patterns does so by itself.
pub match_domain-joined :
    (libc : Libc) (domain p : Bytes) (ps : List Bytes)
    → AllPlain (p ∷ ps)
    → length (joined p ps) < domain_max * 4
    → match_domain libc (joined p ps) domain
      ≡ some_matches (λ s. match_domain_single libc s domain) p ps
unfolding match_domain single
match_domain-joined libc domain p [] h fits = rw (h.0.no_comma) refl
match_domain-joined libc domain p (q ∷ qs) h fits =
    rw
      (
        contains_comma p (32 ∷ joined q qs),
        take-all (domain_max * 4 - 1) (joined p (q ∷ qs)) (omega arith),
        fields-joined libc domain p (q ∷ qs) h,
      )
      (tokens_all libc domain p (q ∷ qs) h)
