-- ===== src/Runtime/Examples.antt =====
-- Tests of src/runtime.rs, and its theorems at a concrete configuration.
use smoltcp_socks.Common.{
  ◌≡◌, ◌≢◌, refl, [], none, some, codes, ok, err, true, false, Option, Result,
}
use smoltcp_socks.Common.Decimal.{parse_uint}
use smoltcp_socks.Common.Text.{strip_prefix, split_once}
use smoltcp_socks.Config.{Config}
use smoltcp_socks.Mpsc.Toy.{channels}
use smoltcp_socks.Netstack.Interface.Toy.{toy_api}
use smoltcp_socks.Netstack.Spawn.{stop}
use smoltcp_socks.Netstack.Toy.{toy, toy_set}
use smoltcp_socks.Proxy.{parse, unsupported_scheme}
use smoltcp_socks.Runtime.{
  Started, StartError, empty_device, parse_proxy_url, start, shutdown, parse_tun_name,
}
use smoltcp_socks.Runtime.Names.{IsNamed, IsUtun, parse_tun_name_sound}

abbrev cfg : Config
cfg = record {
  device = codes "tun://t0";
  proxy = codes "socks5://h:7";
  mtu = 0;
  fwmark = 0;
  interface = none;
  udp_timeout = 60;
  log_level = codes "info";
}

abbrev begin : Config → Option (Result (Started channels toy_api toy toy_set) StartError)
begin cfg = start channels toy_api toy toy_set 0 cfg

empty_device_runs : begin (record cfg { device = [] }) ≡ some (err empty_device)
unfolding start
empty_device_runs = refl

bad_proxy_runs :
    begin (record cfg { proxy = codes "h:7" })
    ≡ some (err (parse_proxy_url (unsupported_scheme (codes "h:7"))))
unfolding start parse split_once
bad_proxy_runs = refl

shutdown_runs :
    shutdown true (record { handle = record { sent = 0; held = true } })
    ≡ some (record { sent = 1; held = false })
unfolding shutdown stop
shutdown_runs = refl

tun_name_runs : parse_tun_name false (codes "tun://t0") ≡ ok (some (codes "t0"))
unfolding parse_tun_name strip_prefix
tun_name_runs = refl

apple_name_runs : parse_tun_name true (codes "utun://utun3") ≡ ok (some (codes "utun3"))
unfolding parse_tun_name strip_prefix parse_uint
apple_name_runs = refl

parse_tun_name_sound_example :
    IsNamed (codes "utun://utun3") (codes "utun3") × (codes "utun3" ≢ []) × IsUtun (codes "utun3")
parse_tun_name_sound_example =
    parse_tun_name_sound true (codes "utun://utun3") (codes "utun3") apple_name_runs

apple_name_refuses : parse_tun_name true (codes "tun://t0") ≡ err tt
unfolding parse_tun_name strip_prefix
apple_name_refuses = refl
