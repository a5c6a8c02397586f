-- ===== src/Route/Choice.antt =====
-- Which rule `proxy_connect_for_tproxy` chooses for a connection whose application is not known.
use proxiflare.Prelude.{
  ◌≡◌, refl, ap, ◌∙◌, inl, inr, Bool, true, false, not, ◌&&◌, Option, none, some, List, [], ◌∷◌,
  ◌++◌, if◌then◌else◌, Bool-cases, Option-cases, arith,
}
use proxiflare.Types.{Rule, Action, direct, proxy, chain, block, reject}
use proxiflare.Libc.{Libc}
use proxiflare.Rules.{Query, rules_match}
use proxiflare.Rules.First.{Chosen, rules_match-Chosen}
use proxiflare.Route.{
  is_direct, is_proxy, is_candidate, has_specifics, criteria_ok, first_or, or_else, pick, scan,
  choose_rule,
}
use proxiflare.Route.Diverts.{
  find, FirstOr, find-FirstOr, Diverts, IsOpen, is_specific, is_catchall, specific_iff,
  catchall_iff,
}

-- A rule that routes, as opposed to none or a DIRECT one.
abbrev pub routes : Action → Bool
routes direct = false
routes proxy = true
routes chain = true
routes block = true
routes reject = true

abbrev pub routed : Option Rule → Option Rule
routed none = none
routed (some r) = if routes r.action then some r else none

abbrev pub first_some : Option Rule → Option Rule → Option Rule
first_some none o = o
first_some (some r) o = some r

module _ (libc : Libc) (q : Query) where
  abbrev routed_by : Option Rule → Option Rule
  routed_by none = none
  routed_by (some r) = if is_direct r.action then none else some r

  or_else-first :
      (o : Option Rule) (r : Rule) (rest : Option Rule)
      → or_else (first_or o r) rest ≡ or_else o (some r)
  or_else-first none r rest = refl
  or_else-first (some x) r rest = refl

  scan_lem :
      (rs : List Rule) (s c : Option Rule)
      → scan libc rs q (s, c)
        ≡ (or_else s (find (is_specific libc q) rs), or_else c (find (is_catchall libc q) rs))
  unfolding scan pick
  scan_lem [] none none = refl
  scan_lem [] none (some c) = refl
  scan_lem [] (some s) none = refl
  scan_lem [] (some s) (some c) = refl
  scan_lem (r ∷ rs) s c = elim (Bool-cases (is_candidate r)) [
    | inr e ↦ rw e (scan_lem rs s c)
    | inl e ↦ elim (Bool-cases (criteria_ok libc r q)) [
      | inr f ↦ rw (e, f) (scan_lem rs s c)
      | inl f ↦ elim (Bool-cases (has_specifics r)) [
        | inl g ↦ rw (e, f, g) (rw (scan_lem rs (first_or s r) c, or_else-first s r) refl)
        | inr g ↦ rw (e, f, g) (rw (scan_lem rs s (first_or c r), or_else-first c r) refl)
      ]
    ]
  ]

  choose_rule-found :
      (rs : List Rule)
      → choose_rule libc rs q
        ≡ or_else
            (routed_by (rules_match libc rs q))
            (or_else (find (is_specific libc q) rs) (find (is_catchall libc q) rs))
  unfolding choose_rule
  choose_rule-found rs = elim (Option-cases (rules_match libc rs q)) [
    | inl e ↦ rw (e, scan_lem rs none none) refl
    | inr (r, e) ↦ elim (Bool-cases (is_direct r.action)) [
      | inl d ↦ rw (e, d, scan_lem rs none none) refl
      | inr d ↦ rw (e, d) refl
    ]
  ]

  routed_by-routed : (o : Option Rule) → routed_by o ≡ routed o
  routed_by-routed none = refl
  routed_by-routed (some r) = by_action r.action
    where
      by_action :
          (a : Action)
          → (if is_direct a then none else some r) ≡ (if routes a then some r else none)
      by_action direct = refl
      by_action proxy = refl
      by_action chain = refl
      by_action block = refl
      by_action reject = refl

  or_else-first_some : (o o' : Option Rule) → or_else o o' ≡ first_some o o'
  or_else-first_some none o' = refl
  or_else-first_some (some r) o' = refl

  -- The rule that decides on a connection is the one that `pf_rules_match` finds without an
  -- application, if it is not DIRECT. Otherwise it is the first enabled PROXY rule with an
  -- application and a proxy whose domain, address and port criteria are met and not all empty, and
  -- if there is none, the first such rule for which they are all empty.
  pub choose_rule-preferred :
      (rs : List Rule)
      → (matched : Option Rule) × (specific : Option Rule) × (catchall : Option Rule) × Chosen libc
          rs q matched
        × FirstOr (λ r. Diverts libc q r × (¬ IsOpen r)) rs specific
        × FirstOr (λ r. Diverts libc q r × IsOpen r) rs catchall
        × (choose_rule libc rs q ≡ first_some (routed matched) (first_some specific catchall))
  choose_rule-preferred rs = (
    rules_match libc rs q,
    find (is_specific libc q) rs,
    find (is_catchall libc q) rs,
    rules_match-Chosen libc rs q,
    find-FirstOr (is_specific libc q) (λ r. Diverts libc q r × (¬ IsOpen r)) (specific_iff libc q)
        rs,
    find-FirstOr (is_catchall libc q) (λ r. Diverts libc q r × IsOpen r) (catchall_iff libc q) rs,
    choose_rule-found rs
        ∙ or_else-first_some (routed_by (rules_match libc rs q))
            (or_else (find (is_specific libc q) rs) (find (is_catchall libc q) rs))
        ∙ ap
            (λ o.
              first_some o (or_else (find (is_specific libc q) rs) (find (is_catchall libc q) rs)))
            (routed_by-routed (rules_match libc rs q))
        ∙ ap (first_some (routed (rules_match libc rs q)))
            (or_else-first_some (find (is_specific libc q) rs) (find (is_catchall libc q) rs)),
  )

  find-append :
      (p : Rule → Bool) (before after : List Rule) (r : Rule)
      → p r ≡ true
      → (r' : Rule) × (find p (before ++ r ∷ after) ≡ some r') × (p r' ≡ true)
  find-append p [] after r h = (r, rw h, h)
  find-append p (b ∷ before) after r h = elim (Bool-cases (p b)) [
    | inl e ↦ (b, rw e, e)
    | inr e ↦ let (r', f, t) = find-append p before after r h in (r', rw e f, t)
  ]

  find-true : (p : Rule → Bool) (rs : List Rule) (r : Rule) → find p rs ≡ some r → p r ≡ true
  find-true p [] r e = cc
  find-true p (x ∷ rs) r e = elim (Bool-cases (p x)) [
    | inl t ↦ let same : some x ≡ some r = (rw t at e) in let h : x ≡ r = cc in rw (← h) t
    | inr f ↦ find-true p rs r (rw f at e)
  ]

  proxy_not_direct : (a : Action) → is_proxy a ≡ true → is_direct a ≡ false
  proxy_not_direct direct h = cc
  proxy_not_direct proxy h = refl
  proxy_not_direct chain h = refl
  proxy_not_direct block h = refl
  proxy_not_direct reject h = refl

  not_direct : (r : Rule) → is_candidate r ≡ true → is_direct r.action ≡ false
  not_direct r h = proxy_not_direct r.action (ground arith)

  candidate_of : (r : Rule) (b c : Bool) → (is_candidate r && b && c) ≡ true → is_candidate r ≡ true
  candidate_of r b c t = elim (Bool-cases (is_candidate r)) [
    | inl e ↦ e
    | inr e ↦ let z : false ≡ true = (rw e at t) in cc
  ]

  -- The specific rules and the others.
  either_found :
      (before after : List Rule) (r : Rule)
      → is_candidate r ≡ true
      → criteria_ok libc r q ≡ true
      → (r' : Rule) × (or_else
            (find (is_specific libc q) (before ++ r ∷ after))
            (find (is_catchall libc q) (before ++ r ∷ after))
          ≡ some r')
        × (is_direct r'.action ≡ false)
  either_found before after r c k = elim (Bool-cases (has_specifics r)) [
    | inl g ↦
        let (r', e, t) = find-append (is_specific libc q) before after r (rw (c, k, g) refl) in
        (
          r',
          rw e refl,
          not_direct r' (candidate_of r' (criteria_ok libc r' q) (has_specifics r') t),
        )
    | inr g ↦
        let (r', e, t) = find-append (is_catchall libc q) before after r (rw (c, k, g) refl) in
        elim (Option-cases (find (is_specific libc q) (before ++ r ∷ after))) [
          | inl z ↦ (
            r',
            rw (z, e) refl,
            not_direct r' (candidate_of r' (criteria_ok libc r' q) (not (has_specifics r')) t),
          )
          | inr (r'', z) ↦ (
            r'',
            rw z refl,
            not_direct r'' (
                candidate_of r'' (criteria_ok libc r'' q) (has_specifics r'')
                  (find-true (is_specific libc q) (before ++ r ∷ after) r'' z)),
          )
        ]
  ]

  routed-some :
      (o : Option Rule) (rest : Option Rule) (r : Rule)
      → rest ≡ some r
      → is_direct r.action ≡ false
      → (r' : Rule) × (or_else (routed_by o) rest ≡ some r') × (is_direct r'.action ≡ false)
  routed-some none rest r e d = (r, e, d)
  routed-some (some x) rest r e d = elim (Bool-cases (is_direct x.action)) [
    | inl t ↦ (r, rw t e, d)
    | inr f ↦ (x, rw f refl, f)
  ]

  -- A connection that meets the domain, address and port criteria of some enabled PROXY rule with an
  -- application and a proxy is decided by a rule that is not DIRECT, whatever the other rules are.
  pub choose_rule_routed :
      (before after : List Rule) (r : Rule)
      → is_candidate r ≡ true
      → criteria_ok libc r q ≡ true
      → (r' : Rule) × (choose_rule libc (before ++ r ∷ after) q ≡ some r')
        × (is_direct r'.action ≡ false)
  choose_rule_routed before after r c k =
      let (r', e, d) = either_found before after r c k in
      rw (choose_rule-found (before ++ r ∷ after))
        (routed-some (rules_match libc (before ++ r ∷ after) q) _ r' e d)
