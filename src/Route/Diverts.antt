-- ===== src/Route/Diverts.antt =====
-- The rules that `proxy_connect_for_tproxy` of main.c looks for when no rule has matched: which they
-- are, and the first of them.
use proxiflare.Prelude.{
  ◌≡◌, ◌≢◌, ◌⊎◌, ◌↔◌, refl, ap, inl, inr, Bool, true, false, not, ◌&&◌, ◌||◌, Option, none, some,
  List, [], ◌∷◌, ◌++◌, if◌then◌else◌, Bytes, ◌==◌, Bool-cases, arith,
}
use proxiflare.Types.{Rule, Action, direct, proxy, chain, block, reject}
use proxiflare.Libc.{Libc}
use proxiflare.Rules.{Query, criterion}
use proxiflare.Rules.Match.{match_domain, match_ip}
use proxiflare.Rules.First.{All, Meets, criterion_iff, and_true, port_iff}
use proxiflare.Route.{is_empty, is_proxy, is_candidate, has_specifics, criteria_ok}

-- The first element that passes a test.
abbrev pub find {ℓ} : {A : Type ℓ} → (A → Bool) → List A → Option A
find p [] = none
find p (x ∷ xs) = let rest = find p xs in if p x then some x else rest

-- The first element of a list that satisfies `P`.
pub record IsFirstOf {A : Type 0} (P : A → Type 0) (xs : List A) (x : A) : Type 0 where
  pub before : List A
  pub after : List A
  pub split : xs ≡ before ++ x ∷ after
  pub holds : P x
  pub others : All (λ b. ¬ P b) before

-- The first element of a list that satisfies `P`, and `none` if there is none.
abbrev pub FirstOr : {A : Type 0} (P : A → Type 0) → List A → Option A → Type 0
FirstOr P xs none = All (λ x. ¬ P x) xs
FirstOr P xs (some x) = IsFirstOf P xs x

pub find-FirstOr :
    (p : Rule → Bool) (P : Rule → Type 0)
    → ((r : Rule) → (p r ≡ true) ↔ P r)
    → (rs : List Rule) → FirstOr P rs (find p rs)
find-FirstOr p P iff [] = tt
find-FirstOr p P iff (r ∷ rs) = elim (Bool-cases (p r)) [
  | inl t ↦
      rw t (record { before = []; after = rs; split = refl; holds = (iff r).0 t; others = tt })
  | inr f ↦
      let fails : ¬ P r = λ h. (let t = (iff r).1 h in cc) in
      rw f (behind r rs fails (find p rs) (find-FirstOr p P iff rs))
]
  where
    behind :
        (r : Rule) (rs : List Rule)
        → ¬ P r
        → (o : Option Rule) → FirstOr P rs o
        → FirstOr P (r ∷ rs) o
    behind r rs fails none h = (fails, h)
    behind r rs fails (some x) h = record {
      before = r ∷ h.before;
      after = h.after;
      split = ap (◌∷◌ r) h.split;
      holds = h.holds;
      others = (fails, h.others);
    }

-- An enabled PROXY rule with an application and a proxy, whose other criteria are met.
pub record Diverts (libc : Libc) (q : Query) (r : Rule) : Type 0 where
  pub enabled : r.enabled ≡ true
  pub by_proxy : r.action ≡ proxy
  pub app : r.app_path ≢ []
  pub to_proxy : r.proxy_id ≢ 0
  pub domain : Meets (match_domain libc) r.domain q.domain
  pub ip : Meets (match_ip libc) r.ip_cidr q.dst_ip
  pub port : (r.dst_port ≡ 0) ⊎ (q.dst_port ≡ r.dst_port)

-- The rule leaves the domain, the address and the port open.
abbrev pub IsOpen : Rule → Type 0
IsOpen r = (r.domain ≡ []) × (r.ip_cidr ≡ []) × (r.dst_port ≡ 0)

module _ (libc : Libc) (q : Query) where
  abbrev pub is_specific : Rule → Bool
  is_specific r = is_candidate r && criteria_ok libc r q && has_specifics r

  abbrev pub is_catchall : Rule → Bool
  is_catchall r = is_candidate r && criteria_ok libc r q && not (has_specifics r)

  is_proxy_iff : (a : Action) → (is_proxy a ≡ true) ↔ (a ≡ proxy)
  is_proxy_iff direct = ((λ e. cc), λ e. cc)
  is_proxy_iff proxy = ((λ e. refl), λ e. refl)
  is_proxy_iff chain = ((λ e. cc), λ e. cc)
  is_proxy_iff block = ((λ e. cc), λ e. cc)
  is_proxy_iff reject = ((λ e. cc), λ e. cc)

  filled_iff : (s : Bytes) → (not (is_empty s) ≡ true) ↔ (s ≢ [])
  filled_iff [] = ((λ e. cc), λ n. absurd (n refl))
  filled_iff (c ∷ s) =
      let some_byte : not (is_empty (c ∷ s)) ≡ true = ground arith in
      ((λ e same. cc), λ n. some_byte)

  IsOpen-iff : (r : Rule) → (not (has_specifics r) ≡ true) ↔ IsOpen r
  IsOpen-iff r = (
    λ h.
        let (h1, p) =
          and_true (is_empty r.domain && is_empty r.ip_cidr) (r.dst_port == 0) (ground arith) in
        let (d, i) = and_true (is_empty r.domain) (is_empty r.ip_cidr) h1 in
        (empty_iff r.domain d, empty_iff r.ip_cidr i, ground arith),
    λ (d, i, p). rw (d, i, p) refl,
  )
    where
      empty_iff : (s : Bytes) → is_empty s ≡ true → s ≡ []
      empty_iff [] e = refl
      empty_iff (c ∷ s) e = let full : is_empty (c ∷ s) ≡ false = ground arith in cc

  Diverts-iff : (r : Rule) → ((is_candidate r && criteria_ok libc r q) ≡ true) ↔ Diverts libc q r
  Diverts-iff r = (
    λ h.
        let (k, c) = and_true (is_candidate r) (criteria_ok libc r q) h in
        let (k1, to) =
          and_true (r.enabled && is_proxy r.action && not (is_empty r.app_path))
            (not (r.proxy_id == 0)) k in
        let (k2, app) = and_true (r.enabled && is_proxy r.action) (not (is_empty r.app_path)) k1 in
        let (en, pr) = and_true r.enabled (is_proxy r.action) k2 in
        let (c1, port) =
          and_true
            (criterion (match_domain libc) r.domain q.domain
              && criterion (match_ip libc) r.ip_cidr q.dst_ip)
            (r.dst_port == 0 || q.dst_port == r.dst_port) c in
        let (dom, ip) =
          and_true (criterion (match_domain libc) r.domain q.domain)
            (criterion (match_ip libc) r.ip_cidr q.dst_ip) c1 in
        record {
          enabled = en;
          by_proxy = (is_proxy_iff r.action).0 pr;
          app = (filled_iff r.app_path).0 app;
          to_proxy = ground arith;
          domain = (criterion_iff (match_domain libc) r.domain q.domain).0 dom;
          ip = (criterion_iff (match_ip libc) r.ip_cidr q.dst_ip).0 ip;
          port = (port_iff r.dst_port q.dst_port).0 port;
        },
    λ d.
        let to = d.to_proxy in
        let id : not (r.proxy_id == 0) ≡ true = ground arith in
        rw
          (
            d.enabled,
            (is_proxy_iff r.action).1 d.by_proxy,
            (filled_iff r.app_path).1 d.app,
            id,
            (criterion_iff (match_domain libc) r.domain q.domain).1 d.domain,
            (criterion_iff (match_ip libc) r.ip_cidr q.dst_ip).1 d.ip,
          )
          ((port_iff r.dst_port q.dst_port).1 d.port),
  )

  pub catchall_iff : (r : Rule) → (is_catchall r ≡ true) ↔ (Diverts libc q r × IsOpen r)
  catchall_iff r = (
    λ h.
        let (d, o) = and_true (is_candidate r && criteria_ok libc r q) (not (has_specifics r)) h in
        ((Diverts-iff r).0 d, (IsOpen-iff r).0 o),
    λ (d, o). rw ((Diverts-iff r).1 d, (IsOpen-iff r).1 o) refl,
  )

  pub specific_iff : (r : Rule) → (is_specific r ≡ true) ↔ (Diverts libc q r × (¬ IsOpen r))
  specific_iff r = (
    λ h.
        let (d, s) = and_true (is_candidate r && criteria_ok libc r q) (has_specifics r) h in
        ((Diverts-iff r).0 d, λ o. (let t = (IsOpen-iff r).1 o in ground arith)),
    λ (d, o). elim (Bool-cases (has_specifics r)) [
      | inl s ↦ rw ((Diverts-iff r).1 d, s) refl
      | inr n ↦ absurd (o ((IsOpen-iff r).0 (rw n refl)))
    ],
  )
