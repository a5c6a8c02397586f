-- ===== src/Tests/OfRules.antt =====
-- The matchers of rules.c with a small C library, and the names of main.c.
use proxiflare.Prelude.{
  ◌≡◌, ◌↔◌, refl, true, false, none, some, List, [], ◌∷◌, Bytes, codes, arith, bytes_eq, eq_ci,
  if◌then◌else◌, contains_byte,
}
use proxiflare.Prelude.Int.{pos, atoi}
use proxiflare.Types.{Rule, proxy, block}
use proxiflare.Libc.{Libc}
use proxiflare.Rules.{Query, rules_match}
use proxiflare.Rules.Match.{base_of, match_domain_single, match_domain, match_ip, match_port}
use proxiflare.Rules.First.{Chosen, rules_match-Chosen}
use proxiflare.Rules.Domain.{IsUnder, match_domain_single_suffix}
use proxiflare.Rules.Tokens.{some_matches, match_domain-joined}
use proxiflare.Rules.Address.{InBlock, match_ip_cidr}

-- No pattern characters, and the addresses 10.0.0.0 and 10.0.0.9.
abbrev pub libc : Libc
unfolding bytes_eq eq_ci base_of
libc = record {
  fnmatch = bytes_eq;
  fnmatch_casefold = eq_ci;
  inet_pton = λ s.
      if bytes_eq s (codes "10.0.0.0")
      then some 167772160
      else if bytes_eq s (codes "10.0.0.9")
      then some 167772169
      else none;
  basename = base_of;
}

abbrev pub browser_rule : Rule
browser_rule = record {
  id = 1;
  name = codes "browser";
  priority = pos 0;
  app_path = codes "firefox";
  domain = [];
  ip_cidr = [];
  dst_port = 443;
  action = proxy;
  proxy_id = 1;
  chain_id = 0;
  enabled = true;
}

abbrev pub ads_rule : Rule
ads_rule = record browser_rule {
  id = 2;
  app_path = [];
  domain = codes "*.ads.ch";
  dst_port = 0;
  action = block;
}

abbrev rules : List Rule
rules = browser_rule ∷ ads_rule ∷ []

abbrev browser : Bytes
browser = codes "/usr/bin/firefox"

abbrev from_browser : Query
from_browser = record {
  app_path = some browser;
  domain = some (codes "x.ads.ch");
  dst_ip = some (codes "10.0.0.9");
  dst_port = 443;
}

first_wins : rules_match libc rules from_browser ≡ some browser_rule
unfolding rules_match
first_wins = refl

abbrev dns_only : Query
dns_only = record { app_path = none; domain = some (codes "x.ads.ch"); dst_ip = none; dst_port = 0 }

domain_alone : rules_match libc rules dns_only ≡ some ads_rule
unfolding rules_match
domain_alone = refl

not_a_suffix : match_domain_single libc (codes "*.ads.ch") (codes "xads.ch") ≡ false
unfolding match_domain_single
not_a_suffix = refl

ports : match_port (codes ":8000-9000") (pos 8443) ≡ true
unfolding match_port
ports = refl

rules_match-Chosen_example : Chosen libc rules from_browser (rules_match libc rules from_browser)
rules_match-Chosen_example = rules_match-Chosen libc rules from_browser

match_domain_single_suffix_example :
    (match_domain_single libc (codes "*.ads.ch") (codes "x.ads.ch") ≡ true)
    ↔ IsUnder (codes "ads.ch") (codes "x.ads.ch")
match_domain_single_suffix_example =
    match_domain_single_suffix libc (codes "x.ads.ch") (codes "ads.ch") (λ e. cc) (omega arith)

match_domain-joined_example :
    match_domain libc (codes "a.ch, *.b.ch") (codes "x.b.ch")
    ≡ some_matches
        (λ s. match_domain_single libc s (codes "x.b.ch"))
        (codes "a.ch")
        (codes "*.b.ch" ∷ [])
unfolding contains_byte
match_domain-joined_example =
    match_domain-joined libc (codes "x.b.ch") (codes "a.ch") (codes "*.b.ch" ∷ [])
      (
        record { no_comma = refl; trimmed = refl; not_empty = λ e. cc },
        (record { no_comma = refl; trimmed = refl; not_empty = λ e. cc }, tt),
      )
      (omega arith)

match_ip_cidr_example :
    (match_ip libc (codes "10.0.0.0/24") (codes "10.0.0.9") ≡ true) ↔ InBlock 167772160 24 167772169
unfolding libc contains_byte atoi
match_ip_cidr_example =
    match_ip_cidr libc (codes "10.0.0.9") 167772169 refl (codes "10.0.0.0") (codes "24") 167772160
      24 refl (omega arith) refl refl (omega arith) (omega arith) (omega arith)
