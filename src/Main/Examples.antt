-- ===== src/Main/Examples.antt =====
-- Tests of src/main.rs, and its theorem at a concrete duration.
use smoltcp_socks.Common.{◌≡◌, refl, [], true, Bytes, none, some, codes, arith}
use smoltcp_socks.Common.Decimal.{decimal, parse_uint}
use smoltcp_socks.Common.Text.{strip_suffix}
use smoltcp_socks.Mpsc.Toy.{channels}
use smoltcp_socks.Netstack.Interface.Toy.{toy_api, toy_api_laws}
use smoltcp_socks.Netstack.Toy.{toy, toy_laws, toy_set, toy_set_laws}
use smoltcp_socks.Runtime.{empty_device, start}
use smoltcp_socks.Main.{Args, from_str, into_config}
use smoltcp_socks.Main.Program.{Exit, start_failed, main, Ends, main-Ends}
use smoltcp_socks.Main.Durations.{from_str-decimal}

-- A `trim` for texts without blanks.
abbrev no_trim : Bytes → Bytes
no_trim s = s

from_str_refuses : from_str no_trim (codes "2m") ≡ none
unfolding from_str strip_suffix parse_uint
from_str_refuses = refl

from_str-decimal_example :
    (from_str no_trim (codes "60") ≡ some 60) × (from_str no_trim (codes "60s") ≡ some 60)
unfolding decimal
from_str-decimal_example = from_str-decimal no_trim 60 (omega arith) refl refl

abbrev args : Args
args = record {
  device = codes "tun0";
  proxy = codes "socks5://h:7";
  mtu = 0;
  fwmark = 0;
  interface = none;
  udp_timeout = 60;
  log_level = codes "info";
}

main-Ends_example :
    (e : Exit channels toy_api toy toy_set) × (main channels toy_api toy toy_set 0 args true true
      ≡ some e)
    × Ends channels toy_api toy toy_set (into_config args) true e
main-Ends_example =
    main-Ends channels toy_api toy toy_set toy_api_laws toy_laws toy_set_laws 0 args true true

no_device :
    main channels toy_api toy toy_set 0 (record args { device = [] }) true true
    ≡ some (start_failed (empty_device))
unfolding main start into_config
no_device = refl
