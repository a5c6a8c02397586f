-- ===== src/Tests/OfHosts.antt =====
-- The certificate cache, the resolver's cache and the HTTP CONNECT client.
use proxiflare.Prelude.{
  ℕ, ◌≤◌, ◌≡◌, refl, Option, none, some, [], ◌∷◌, Bytes, codes, length, replicate, lower, arith,
  zero, suc,
}
use proxiflare.Net.{Conn}
use proxiflare.Mitm.{CertCache, no_certs, get_cert, domain_is_safe}
use proxiflare.Mitm.Hit.{get_cert_again}
use proxiflare.DnsResolver.{Answer, no_answers, answers_size, dns_cache_lookup, dns_cache_put}
use proxiflare.DnsResolver.Repeat.{AllFit, lookup-dns_cache_put}

abbrev fresh_cache : CertCache ℕ
fresh_cache = no_certs

abbrev one_cert : CertCache ℕ
unfolding get_cert
one_cert = (get_cert fresh_cache (codes "a.ch") (some 7)).1

first_made : get_cert fresh_cache (codes "a.ch") (some 7) ≡ (some 7, one_cert)
unfolding get_cert one_cert
first_made = refl

get_cert_again_example : (get_cert one_cert (codes "A.ch") (some 8)).0 ≡ some 7
unfolding lower domain_is_safe
get_cert_again_example =
    get_cert_again fresh_cache one_cert (codes "a.ch") (codes "A.ch") (some 7) (some 8) 7 refl refl
      refl refl first_made

all_fit : (n : ℕ) (e : Answer) → length e.resp ≤ 1024 → AllFit (replicate n e)
all_fit zero e h = tt
all_fit (suc n) e h = (h, all_fit n e h)

abbrev reply : Bytes
reply = 1 ∷ 2 ∷ 3 ∷ []

nothing_yet : dns_cache_lookup 100 no_answers (codes "a.ch") 1 5 1026 ≡ none
unfolding dns_cache_lookup
nothing_yet = refl

lookup-dns_cache_put_example :
    dns_cache_lookup 130
      (dns_cache_put 100 no_answers (codes "a.ch") 1 reply)
      (codes "a.ch")
      1
      513
      1026
    ≡ some (2 ∷ 1 ∷ 3 ∷ [])
lookup-dns_cache_put_example =
    lookup-dns_cache_put 100 130 no_answers (codes "a.ch") 1 5 513 reply refl (omega arith)
      (all_fit answers_size (record { name = []; qtype = 0; resp = []; expires = 0 }) (omega arith))
      (omega arith) (omega arith) (omega arith) (omega arith) (omega arith) nothing_yet

abbrev quiet : Conn
quiet = record { rx = []; sends = 0; sent = [] }

abbrev pairs : ℕ → ℕ
pairs i = 2

abbrev bob : Option Bytes
bob = some (codes "bob")
