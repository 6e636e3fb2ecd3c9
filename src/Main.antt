-- ===== src/Main.antt =====
-- src/main.rs: the command line, as clap has parsed it. `trim` is the one of Rust's standard library.
mod Durations
mod Program
mod Examples
use smoltcp_socks.Common.{ℕ, ◌-◌, ◌^◌, Bytes, Option, none, some}
use smoltcp_socks.Common.Decimal.{parse_uint}
use smoltcp_socks.Common.Text.{strip_suffix}
use smoltcp_socks.Config.{Config}

abbrev pub u64_max : ℕ
u64_max = 2 ^ 64 - 1

-- A duration in seconds.
abbrev pub HumantimeDuration : Type 0
HumantimeDuration = ℕ

seconds : Bytes → Option Bytes → Option HumantimeDuration
seconds s (some num) = parse_uint u64_max num
seconds s none = parse_uint u64_max s

-- `HumantimeDuration::from_str`, in seconds; the text of the error is left out.
pub from_str : (Bytes → Bytes) → Bytes → Option HumantimeDuration
unfolding seconds
from_str trim s = let t = trim s in seconds t (strip_suffix b's' t)

pub record Args : Type 0 where
  pub device : Bytes
  pub proxy : Bytes
  pub mtu : ℕ
  pub fwmark : ℕ
  pub interface : Option Bytes
  pub udp_timeout : HumantimeDuration
  pub log_level : Bytes

pub into_config : Args → Config
into_config args = record {
  device = args.device;
  proxy = args.proxy;
  mtu = args.mtu;
  fwmark = args.fwmark;
  interface = args.interface;
  udp_timeout = args.udp_timeout;
  log_level = args.log_level;
}
