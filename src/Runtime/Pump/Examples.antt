-- ===== src/Runtime/Pump/Examples.antt =====
-- Tests of the pump of src/runtime.rs, and its theorems at concrete packets.
use smoltcp_socks.Common.{
  ◌≡◌, ◌≤◌, refl, ℕ, Bool, true, false, List, [], ◌∷◌, Option, none, some, Bytes, codes, Result, ok,
  err, arith,
}
use smoltcp_socks.Common.Decimal.{parse_uint}
use smoltcp_socks.Common.Text.{strip_prefix, split_once, rsplit_once, same, to_ascii_lowercase}
use smoltcp_socks.Config.{Config}
use smoltcp_socks.Mpsc.Toy.{channels, channels_laws}
use smoltcp_socks.Netstack.{resolve_mtu}
use smoltcp_socks.Netstack.Actor.{with_channels}
use smoltcp_socks.Netstack.Interface.{build_interface, ipv6_unspecified}
use smoltcp_socks.Netstack.Interface.Toy.{toy_api, toy_api_laws}
use smoltcp_socks.Netstack.Spawn.{System, spawn}
use smoltcp_socks.Netstack.Toy.{toy, toy_laws, toy_set, toy_set_laws}
use smoltcp_socks.Proxy.{parse, into_proxy}
use smoltcp_socks.Socks5
use smoltcp_socks.Device.{capabilities, consume, new}
use smoltcp_socks.Runtime.{Started, start, tun_mtu, parse_tun_name}
use smoltcp_socks.Runtime.Pump.{
  Tun, TunLaws, create_tun, open_tun, configuration, Pumping, PumpEvent, tun_read, outbound_ready,
  tun_pump, starting,
}
use smoltcp_socks.Runtime.Pump.Opening.{Configures, start-Configures}
use smoltcp_socks.Runtime.Pump.Flow.{Flow, still, Reach, here, next, pumps, transmits}
use smoltcp_socks.Runtime.Pump.Closed.{IsClosed, IsIdle, unopened-IsClosed}

-- A device that is its configuration: whether it is up, its MTU and its name. Only a device with a
-- name can be created.
abbrev Settings : Type 0
Settings = Bool × Option ℕ × Option Bytes

abbrev named_only : Option Bytes → Settings → Result Settings (Unit {0})
named_only (some name) c = ok c
named_only none c = err tt

abbrev toy_tun : Tun
toy_tun = record {
  Configuration = Settings;
  AsyncDevice = Settings;
  CreateError = Unit {0};
  default = (false, none, none);
  up = λ c. (true, c.1, c.2);
  mtu = λ n c. (c.0, some n, c.2);
  tun_name = λ s c. (c.0, c.1, some s);
  create_as_async = λ c. named_only c.2 c;
  is_up = λ c. c.0;
  mtu_of = λ c. c.1;
  name_of = λ c. c.2;
}

toy_tun_laws : TunLaws toy_tun
toy_tun_laws = record {
  default_unnamed = refl;
  up_up = λ c. refl;
  up_name = λ c. refl;
  mtu_mtu = λ n c. refl;
  mtu_up = λ n c. refl;
  mtu_name = λ n c. refl;
  name_name = λ s c. refl;
  name_up = λ s c. refl;
  name_mtu = λ s c. refl;
}

open_runs : open_tun toy_tun false (codes "tun://t0") 1500 ≡ ok (true, some 1500, some (codes "t0"))
unfolding open_tun configuration tun_mtu parse_tun_name strip_prefix
open_runs = refl

unnamed_fails : open_tun toy_tun false (codes "tun://") 1500 ≡ err (create_tun tt)
unfolding open_tun configuration tun_mtu parse_tun_name strip_prefix
unnamed_fails = refl

-- A packet from the device and one from smoltcp, which the pump writes; then a read that fails.
abbrev begun : Pumping channels
begun = starting channels (new channels 1500)

abbrev pub filled : Bytes → Unit {0} × Bytes
filled b = (tt, 7 ∷ b)

abbrev after_send : Pumping channels
unfolding new consume
after_send = record begun { bridge = (consume channels 1 filled begun.bridge).1 }

abbrev events : List PumpEvent
events = tun_read (some (1 ∷ [])) ∷ outbound_ready true ∷ tun_read none ∷ []

pump_runs :
    (tun_pump channels toy_tun false (codes "t0") 1500 events after_send).written
    ≡ (7 ∷ 0 ∷ []) ∷ []
unfolding tun_pump open_tun configuration tun_mtu parse_tun_name strip_prefix new consume
pump_runs = refl

abbrev flow : Flow
flow = record {
  arrived = (1 ∷ []) ∷ [];
  delivered = [];
  sent = (7 ∷ 0 ∷ []) ∷ [];
  taken = ((7 ∷ 0 ∷ []), true) ∷ [];
}

abbrev last : Pumping channels
unfolding new consume tun_pump open_tun configuration tun_mtu parse_tun_name strip_prefix
last = tun_pump channels toy_tun false (codes "t0") 1500 events after_send

run : Reach channels begun last flow
unfolding tun_pump open_tun configuration tun_mtu parse_tun_name strip_prefix new consume
run =
    next
      (next
        (next (next here (transmits 1 filled refl refl refl) refl)
          (pumps (tun_read (some (1 ∷ []))) refl refl refl) refl)
        (pumps (outbound_ready true) refl refl refl) refl)
      (pumps (tun_read none) refl refl refl) refl

-- The device cannot be opened, and what smoltcp sends is dropped.
abbrev unopened : Pumping channels
unopened = tun_pump channels toy_tun false (codes "tun://") 1500 events begun

dropped :
    Reach channels unopened
      (record unopened { bridge = (consume channels 1 filled unopened.bridge).1 })
      still
unfolding new tun_pump open_tun configuration tun_mtu parse_tun_name strip_prefix consume
dropped = next here (transmits 1 filled refl refl refl) refl

unopened-IsClosed_example :
    IsClosed channels
      (record unopened { bridge = (consume channels 1 filled unopened.bridge).1 })
      []
    × IsIdle still
unopened-IsClosed_example =
    unopened-IsClosed channels channels_laws toy_tun false (codes "tun://") 1500 events begun
      (record unopened { bridge = (consume channels 1 filled unopened.bridge).1 }) still
      (create_tun tt) unnamed_fails dropped

-- A whole start.
abbrev pub cfg : Config
cfg = record {
  device = codes "tun://t0";
  proxy = codes "socks5://h:7";
  mtu = 0;
  fwmark = 0;
  interface = none;
  udp_timeout = 60;
  log_level = codes "info";
}

or_else {ℓ} : {A : Type ℓ} → Option A → A → A
or_else none d = d
or_else (some a) d = a

unfoldable abbrev pub system : System toy toy_set
unfolding or_else spawn with_channels
system = or_else (spawn toy toy_set) (record {
  actor = none;
  accepted = [];
  dispatching = false;
  relays = [];
  handle = record { sent = 0; held = false };
})

unfoldable abbrev pub started : Started channels toy_api toy toy_set
unfolding or_else spawn with_channels
started = record {
  proxy = record { host = codes "h"; port = 7; creds = none };
  bridge = new channels 1500;
  iface = record {
    any_ip = true;
    ipv4_route = some (0 ∷ 0 ∷ 0 ∷ 0 ∷ []);
    ipv6_route = some ipv6_unspecified;
  };
  system = system;
  pump_device = codes "tun://t0";
  pump_mtu = 1500;
  runtime = record { handle = system.handle };
}

pub start_runs : start channels toy_api toy toy_set 0 cfg ≡ some (ok started)
unfolding start parse split_once rsplit_once same to_ascii_lowercase parse_uint resolve_mtu new
    into_proxy Socks5.new or_else spawn with_channels build_interface capabilities
start_runs = refl

start-Configures_example :
    (mtu : ℕ) × (mtu ≡ (capabilities started.bridge.phy).max_transmission_unit)
    × (1 ≤ mtu)
    × Configures toy_tun
        (configuration toy_tun (some (codes "t0")) started.pump_mtu)
        (some (codes "t0"))
        mtu
start-Configures_example =
    start-Configures channels toy_api toy_api_laws toy toy_laws toy_set toy_set_laws toy_tun
      toy_tun_laws 0 cfg started (some (codes "t0")) (omega arith) start_runs
