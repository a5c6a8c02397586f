-- ===== src/Types.antt =====
-- daemon/include/proxiflare.h: the enumerations and structures that the components share, and the
-- names of the enumerators (daemon/src/main.c). C strings are their bytes before the NUL.
pub mod Names
use proxiflare.Prelude.{ℕ, Bool, List, Bytes}
use proxiflare.Prelude.Int.{ℤ}

pub data ProxyType : Type 0 where
  socks4 socks5 http ssh : ProxyType

pub data Health : Type 0 where
  unknown online offline slow error : Health

pub data Action : Type 0 where
  direct proxy chain block reject : Action

-- pf_proxy_t, without the counters and times that no modelled function reads.
pub record Proxy : Type 0 where
  pub id : ℕ
  pub name : Bytes
  pub type : ProxyType
  pub host : Bytes
  pub port : ℕ
  pub username : Bytes
  pub password : Bytes
  pub enabled : Bool

-- pf_rule_t, without the user, group and protocol that no modelled function reads.
pub record Rule : Type 0 where
  pub id : ℕ
  pub name : Bytes
  pub priority : ℤ
  pub app_path : Bytes
  pub domain : Bytes
  pub ip_cidr : Bytes
  pub dst_port : ℕ
  pub action : Action
  pub proxy_id : ℕ
  pub chain_id : ℕ
  pub enabled : Bool

-- pf_chain_t; `hops` holds the first `hop_count` ids.
pub record Chain : Type 0 where
  pub id : ℕ
  pub name : Bytes
  pub hops : List ℕ
  pub enabled : Bool
