-- ===== src/Rules/First.antt =====
-- Which rule `pf_rules_match` and `pf_rules_match_app_any` choose.
use proxiflare.Prelude.{
  ℕ, ◌≡◌, ◌≢◌, ◌⊎◌, inl, inr, ◌↔◌, refl, ap, Bool, true, false, ◌&&◌, ◌||◌, Option, none, some,
  List, [], ◌∷◌, ◌++◌, ◌==◌, Bytes, length, arith, Bool-cases,
}
use proxiflare.Types.{Rule}
use proxiflare.Libc.{Libc}
use proxiflare.Rules.Match.{match_app, match_domain, match_ip}
use proxiflare.Rules.{Query, criterion, rule_matches, rules_match, app_matches, rules_match_app_any}

abbrev pub All {ℓ κ} : {A : Type ℓ} → (A → Type κ) → List A → Type κ
All P [] = Unit
All P (x ∷ xs) = P x × All P xs

-- A field that is empty, or a known value that it matches.
abbrev pub Meets : (Bytes → Bytes → Bool) → Bytes → Option Bytes → Type 0
Meets matches field value =
    (field ≡ []) ⊎ ((v : Bytes) × (value ≡ some v) × (matches field v ≡ true))

module _ (libc : Libc) where
  -- The rule is enabled, and all of its criteria are met.
  pub record Applies (r : Rule) (q : Query) : Type 0 where
    pub enabled : r.enabled ≡ true
    pub app : Meets (match_app libc) r.app_path q.app_path
    pub domain : Meets (match_domain libc) r.domain q.domain
    pub ip : Meets (match_ip libc) r.ip_cidr q.dst_ip
    pub port : (r.dst_port ≡ 0) ⊎ (q.dst_port ≡ r.dst_port)

  pub record IsFirst (rs : List Rule) (q : Query) (r : Rule) : Type 0 where
    pub before : List Rule
    pub after : List Rule
    pub split : rs ≡ before ++ r ∷ after
    pub applies : Applies r q
    pub others : All (λ b. ¬ Applies b q) before

  -- What the result of a search says of the rules.
  abbrev pub Chosen : List Rule → Query → Option Rule → Type 0
  Chosen rs q none = All (λ r. ¬ Applies r q) rs
  Chosen rs q (some r) = IsFirst rs q r

pub criterion_iff :
    (matches : Bytes → Bytes → Bool) (field : Bytes) (value : Option Bytes)
    → (criterion matches field value ≡ true) ↔ Meets matches field value
criterion_iff matches [] value = ((λ e. inl refl), λ m. refl)
criterion_iff matches (c ∷ field) none =
    ((λ e. cc), λ m. elim m [ inl e ↦ cc | inr (v, e, h) ↦ cc ])
criterion_iff matches (c ∷ field) (some v) =
    ((λ e. inr (v, refl, e)), λ m. elim m [ inl e ↦ cc | inr (w, e, h) ↦ cc ])

pub and_true : (a b : Bool) → (a && b) ≡ true → (a ≡ true) × (b ≡ true)
and_true true b h = (refl, h)
and_true false b h = cc

pub port_iff : (a b : ℕ) → ((a == 0 || b == a) ≡ true) ↔ ((a ≡ 0) ⊎ (b ≡ a))
port_iff a b = ((λ h. ground arith), λ h. ground arith)

module _ (libc : Libc) where
  rule_matches-Applies : (r : Rule) (q : Query) → rule_matches libc r q ≡ true → Applies libc r q
  unfolding rule_matches
  rule_matches-Applies r q h =
      let (h1, p) = and_true _ (r.dst_port == 0 || q.dst_port == r.dst_port) h in
      let (h2, i) = and_true _ (criterion (match_ip libc) r.ip_cidr q.dst_ip) h1 in
      let (h3, d) = and_true _ (criterion (match_domain libc) r.domain q.domain) h2 in
      let (e, a) = and_true r.enabled (criterion (match_app libc) r.app_path q.app_path) h3 in
      record {
        enabled = e;
        app = (criterion_iff (match_app libc) r.app_path q.app_path).0 a;
        domain = (criterion_iff (match_domain libc) r.domain q.domain).0 d;
        ip = (criterion_iff (match_ip libc) r.ip_cidr q.dst_ip).0 i;
        port = (port_iff r.dst_port q.dst_port).0 p;
      }

  pub Applies-rule_matches :
      (r : Rule) (q : Query) → Applies libc r q → rule_matches libc r q ≡ true
  unfolding rule_matches
  Applies-rule_matches r q a =
      rw
        (
          a.enabled,
          (criterion_iff (match_app libc) r.app_path q.app_path).1 a.app,
          (criterion_iff (match_domain libc) r.domain q.domain).1 a.domain,
          (criterion_iff (match_ip libc) r.ip_cidr q.dst_ip).1 a.ip,
        )
        ((port_iff r.dst_port q.dst_port).1 a.port)

  not-Applies : (r : Rule) (q : Query) → rule_matches libc r q ≡ false → ¬ Applies libc r q
  not-Applies r q e a = let t = Applies-rule_matches r q a in cc

  Chosen-cons :
      (r : Rule) (rs : List Rule) (q : Query) (o : Option Rule)
      → ¬ Applies libc r q
      → Chosen libc rs q o
      → Chosen libc (r ∷ rs) q o
  Chosen-cons r rs q none n c = (n, c)
  Chosen-cons r rs q (some x) n c = record {
    before = r ∷ c.before;
    after = c.after;
    split = ap (◌∷◌ r) c.split;
    applies = c.applies;
    others = (n, c.others);
  }

  -- `pf_rules_match` returns the first rule in the list's order that is enabled and whose
  -- non-empty criteria are all met, by known values; it returns NULL only if no rule is such.
  pub rules_match-Chosen : (rs : List Rule) (q : Query) → Chosen libc rs q (rules_match libc rs q)
  unfolding rules_match
  rules_match-Chosen [] q = tt
  rules_match-Chosen (r ∷ rs) q = elim (Bool-cases (rule_matches libc r q)) [
    | inl e ↦ rw e (record {
      before = [];
      after = rs;
      split = refl;
      applies = rule_matches-Applies r q e;
      others = tt;
    })
    | inr e ↦
        rw e
          (Chosen-cons r rs q (rules_match libc rs q) (not-Applies r q e) (rules_match-Chosen rs q))
  ]

  app_matches_of_Applies :
      (r : Rule) (q : Query) (app : Bytes)
      → Applies libc r q
      → q.app_path ≡ some app
      → r.app_path ≢ []
      → app_matches libc r app ≡ true
  unfolding app_matches
  app_matches_of_Applies r q app a e ne = elim a.app [
    | inl z ↦ absurd (ne z)
    | inr (v, e', m) ↦
        let same : v ≡ app = cc in rw (a.enabled, nonempty r.app_path ne, rw same at m)
  ]
    where
      nonempty : (s : Bytes) → s ≢ [] → (length s == 0) ≡ false
      nonempty [] n = absurd (n refl)
      nonempty (x ∷ s) n = ground arith

  app_any_found :
      (before after : List Rule) (r : Rule) (app : Bytes)
      → app_matches libc r app ≡ true
      → (r' : Rule) × (rules_match_app_any libc (before ++ r ∷ after) app ≡ some r')
  unfolding rules_match_app_any
  app_any_found [] after r app m = (r, rw m)
  app_any_found (b ∷ before) after r app m = elim (Bool-cases (app_matches libc b app)) [
    | inl e ↦ (b, rw e)
    | inr e ↦ let (r', f) = app_any_found before after r app m in (r', rw e f)
  ]

  -- No traffic escapes the process-level test: if a rule with an application pattern is chosen for
  -- some connection of a process, then `pf_rules_match_app_any` finds a rule for that process when
  -- it starts, whatever the domain, address and port of the rule.
  pub rules_match_app_any_complete :
      (rs : List Rule) (q : Query) (app : Bytes) (r : Rule)
      → q.app_path ≡ some app
      → rules_match libc rs q ≡ some r
      → r.app_path ≢ []
      → (r' : Rule) × (rules_match_app_any libc rs app ≡ some r')
  rules_match_app_any_complete rs q app r e m ne =
      let c : IsFirst libc rs q r = rw m at (rules_match-Chosen rs q) in
      rw c.split
        (app_any_found c.before c.after r app (app_matches_of_Applies r q app c.applies e ne))

  -- A query that knows the domain alone, as the DNS callback makes, is answered only by a rule with
  -- no application, no address and no port.
  pub rules_match_domain_only :
      (rs : List Rule) (d : Bytes) (r : Rule)
      → rules_match libc rs
          (record { app_path = none; domain = some d; dst_ip = none; dst_port = 0 })
        ≡ some r
      → (r.app_path ≡ []) × (r.ip_cidr ≡ []) × (r.dst_port ≡ 0)
  rules_match_domain_only rs d r m =
      let q : Query = record { app_path = none; domain = some d; dst_ip = none; dst_port = 0 } in
      let c : IsFirst libc rs q r = rw m at (rules_match-Chosen rs q) in
      (
        unmet (match_app libc) r.app_path c.applies.app,
        unmet (match_ip libc) r.ip_cidr c.applies.ip,
        elim c.applies.port [ inl e ↦ e | inr e ↦ omega arith ],
      )
    where
      unmet :
          (matches : Bytes → Bytes → Bool) (field : Bytes) → Meets matches field none → field ≡ []
      unmet matches field (inl e) = e
      unmet matches field (inr (v, e, h)) = cc
