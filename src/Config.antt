-- ===== src/Config.antt =====
-- src/config.rs.
use smoltcp_socks.Common.{ℕ, Option, none, [], Bytes, codes}

-- `udp_timeout` is in seconds.
pub record Config : Type 0 where
  pub device : Bytes
  pub proxy : Bytes
  pub mtu : ℕ
  pub fwmark : ℕ
  pub interface : Option Bytes
  pub udp_timeout : ℕ
  pub log_level : Bytes

-- `Config::default`
pub default : Config
default = record {
  device = [];
  proxy = [];
  mtu = 0;
  fwmark = 0;
  interface = none;
  udp_timeout = 60;
  log_level = codes "info";
}
