-- ===== src/Rules.antt =====
-- daemon/src/rules.c: the pattern matchers and the choice of a rule.
pub mod Match
pub mod First
pub mod Domain
pub mod Tokens
pub mod Address
use proxiflare.Prelude.{
  ℕ, Bool, true, false, not, ◌&&◌, ◌||◌, Option, none, some, List, [], ◌∷◌, ◌==◌, if◌then◌else◌,
  Bytes, length,
}
use proxiflare.Types.{Rule}
use proxiflare.Libc.{Libc}
use Match.{match_app, match_domain, match_ip}

-- What is known of a connection. A NULL argument of `pf_rules_match` is `none`.
pub record Query : Type 0 where
  pub app_path : Option Bytes
  pub domain : Option Bytes
  pub dst_ip : Option Bytes
  pub dst_port : ℕ

-- One criterion: a field that is empty does not matter, any other wants a value that it matches.
abbrev pub criterion : (Bytes → Bytes → Bool) → Bytes → Option Bytes → Bool
criterion matches [] value = true
criterion matches (c ∷ field) none = false
criterion matches (c ∷ field) (some v) = matches (c ∷ field) v

module _ (libc : Libc) where
  -- The body of the loop of `pf_rules_match`: is this the rule to return?
  unfoldable pub rule_matches : Rule → Query → Bool
  unfolding match_app match_domain match_ip
  rule_matches r q =
      r.enabled
      && criterion (match_app libc) r.app_path q.app_path
      && criterion (match_domain libc) r.domain q.domain
      && criterion (match_ip libc) r.ip_cidr q.dst_ip
      && (r.dst_port == 0 || q.dst_port == r.dst_port)

  -- The rules are those of `rs`, up to its count, in the order in which they were loaded.
  unfoldable pub rules_match : List Rule → Query → Option Rule
  unfolding rule_matches
  rules_match [] q = none
  rules_match (r ∷ rs) q = let rest = rules_match rs q in if rule_matches r q then some r else rest

  unfoldable pub app_matches : Rule → Bytes → Bool
  unfolding match_app
  app_matches r app_path =
      r.enabled && not (length r.app_path == 0) && match_app libc r.app_path app_path

  unfoldable pub rules_match_app_any : List Rule → Bytes → Option Rule
  unfolding app_matches
  rules_match_app_any [] app_path = none
  rules_match_app_any (r ∷ rs) app_path =
      let rest = rules_match_app_any rs app_path in if app_matches r app_path then some r else rest
