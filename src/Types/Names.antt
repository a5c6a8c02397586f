-- ===== src/Types/Names.antt =====
-- daemon/src/main.c: the strings of the enumerators, as JSON and the database carry them.
use proxiflare.Prelude.{
  ◌≡◌, refl, Option, none, some, Bytes, if◌then◌else◌, codes, bytes_eq, eq_ci, lower,
}
use proxiflare.Types.{
  ProxyType, socks4, socks5, http, ssh, Health, unknown, online, offline, slow, error, Action,
  direct, proxy, chain, block, reject,
}

-- An enumerator outside the list has the `default:` name; the model's types have none.
unfoldable pub proxy_type_str : ProxyType → Bytes
proxy_type_str socks4 = codes "socks4"
proxy_type_str socks5 = codes "socks5"
proxy_type_str http = codes "http"
proxy_type_str ssh = codes "ssh"

unfoldable pub health_str : Health → Bytes
health_str unknown = codes "unknown"
health_str online = codes "online"
health_str offline = codes "offline"
health_str slow = codes "slow"
health_str error = codes "error"

unfoldable pub action_str : Action → Bytes
action_str direct = codes "DIRECT"
action_str proxy = codes "PROXY"
action_str chain = codes "CHAIN"
action_str block = codes "BLOCK"
action_str reject = codes "REJECT"

unfoldable pub proxy_type_from_str : Option Bytes → ProxyType
unfolding bytes_eq
proxy_type_from_str none = socks5
proxy_type_from_str (some s) =
    if bytes_eq s (codes "socks4")
    then socks4
    else if bytes_eq s (codes "socks5")
    then socks5
    else if bytes_eq s (codes "http")
    then http
    else if bytes_eq s (codes "ssh")
    then ssh
    else socks5

unfoldable pub action_from_str : Option Bytes → Action
unfolding eq_ci
action_from_str none = direct
action_from_str (some s) =
    if eq_ci s (codes "direct")
    then direct
    else if eq_ci s (codes "proxy")
    then proxy
    else if eq_ci s (codes "chain")
    then chain
    else if eq_ci s (codes "block")
    then block
    else if eq_ci s (codes "reject")
    then reject
    else direct

-- The name of a proxy type reads back as that type.
pub proxy_type_from_str-proxy_type_str :
    (t : ProxyType) → proxy_type_from_str (some (proxy_type_str t)) ≡ t
unfolding proxy_type_from_str proxy_type_str
proxy_type_from_str-proxy_type_str socks4 = refl
proxy_type_from_str-proxy_type_str socks5 = refl
proxy_type_from_str-proxy_type_str http = refl
proxy_type_from_str-proxy_type_str ssh = refl

action_read :
    (a : Action) (s : Bytes) → lower s ≡ lower (action_str a) → action_from_str (some s) ≡ a
unfolding action_from_str action_str
action_read direct s e = rw e
action_read proxy s e = rw e
action_read chain s e = rw e
action_read block s e = rw e
action_read reject s e = rw e

-- The name of an action reads back as that action, in whatever case its letters are.
pub action_from_str-action_str :
    (a : Action) (s : Bytes) → lower s ≡ lower (action_str a) → action_from_str (some s) ≡ a
action_from_str-action_str a s e = action_read a s e
