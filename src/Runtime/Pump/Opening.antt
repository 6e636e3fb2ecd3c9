-- ===== src/Runtime/Pump/Opening.antt =====
-- How src/runtime.rs configures the TUN device, against what the stack is told of it.
use native.Mathlib.Nat.{mod-eq_of_lt}
use smoltcp_socks.Common.{ℕ, ◌≤◌, ◌<◌, ◌≡◌, ◌^◌, ◌∙◌, true, Option, none, some, Bytes, ok, arith}
use smoltcp_socks.Config.{Config}
use smoltcp_socks.Mpsc.{Mpsc}
use smoltcp_socks.Netstack.{resolve_mtu}
use smoltcp_socks.Netstack.Interface.{InterfaceApi, InterfaceLaws}
use smoltcp_socks.Netstack.Socket.{Tcp, TcpLaws, SocketSet, SocketSetLaws}
use smoltcp_socks.Device.{Packet, capabilities}
use smoltcp_socks.Runtime.{Started, start, tun_mtu}
use smoltcp_socks.Runtime.Checks.{start-IsStarted}
use smoltcp_socks.Runtime.Pump.{Tun, TunLaws, set_name, configuration}

resolved : (cfg : Config) → cfg.mtu < 2 ^ 16 → (1 ≤ resolve_mtu cfg) × (resolve_mtu cfg < 2 ^ 16)
unfolding resolve_mtu
resolved cfg h = ground arith

-- The configuration of a device: up, with this MTU, and with this name if there is one.
pub record Configures (tun : Tun) (c : tun.Configuration) (name : Option Bytes) (mtu : ℕ)
    : Type 0 where
  pub up : tun.is_up c ≡ true
  pub mtu_set : tun.mtu_of c ≡ some mtu
  pub named : tun.name_of c ≡ name

configuration-Configures :
    (tun : Tun) (laws : TunLaws tun) (name : Option Bytes) (mtu : ℕ)
    → Configures tun (configuration tun name mtu) name (tun_mtu mtu)
unfolding configuration set_name
configuration-Configures tun laws none mtu = record {
  up = laws.mtu_up (tun_mtu mtu) (tun.up tun.default) ∙ laws.up_up tun.default;
  mtu_set = laws.mtu_mtu (tun_mtu mtu) (tun.up tun.default);
  named =
      laws.mtu_name (tun_mtu mtu) (tun.up tun.default)
      ∙ laws.up_name tun.default
      ∙ laws.default_unnamed;
}
configuration-Configures tun laws (some name) mtu =
    let c = tun.mtu (tun_mtu mtu) (tun.up tun.default) in
    record {
      up =
          laws.name_up name c
          ∙ laws.mtu_up (tun_mtu mtu) (tun.up tun.default)
          ∙ laws.up_up tun.default;
      mtu_set = laws.name_mtu name c ∙ laws.mtu_mtu (tun_mtu mtu) (tun.up tun.default);
      named = laws.name_name name c;
    }

module _ (m : Mpsc Packet) (api : InterfaceApi) (iface_laws : InterfaceLaws api) (t : Tcp)
    (laws : TcpLaws t) (ss : SocketSet t) (set_laws : SocketSetLaws t ss) (tun : Tun)
    (tun_laws : TunLaws tun) where
  -- If the configured MTU is a 16-bit number then its narrowing to 16 bits loses nothing: the pump of
  -- a started program configures its device to be up, with the name that it was given, if any, and
  -- with the MTU that the stack is told of, which is not 0.
  pub start-Configures :
      (now : ℕ) (cfg : Config) (r : Started m api t ss) (name : Option Bytes)
      → cfg.mtu < 2 ^ 16
      → start m api t ss now cfg ≡ some (ok r)
      → (mtu : ℕ) × (mtu ≡ (capabilities r.bridge.phy).max_transmission_unit)
        × (1 ≤ mtu)
        × Configures tun (configuration tun name r.pump_mtu) name mtu
  unfolding tun_mtu
  start-Configures now cfg r name b h =
      let s = start-IsStarted m api t ss iface_laws laws set_laws now cfg r h in
      let fits = resolved cfg b in
      let whole =
        mod-eq_of_lt {n = r.pump_mtu} {m = 2 ^ 16} (omega (arith, fits.1, s.mtu_resolved)) in
      (
        tun_mtu r.pump_mtu,
        whole ∙ s.same_mtu,
        omega (arith, whole, fits.0, s.mtu_resolved),
        configuration-Configures tun tun_laws name r.pump_mtu,
      )
