-- ===== src/Runtime.antt =====
-- src/runtime.rs: how the program is put together.
pub mod Checks
pub mod Names
pub mod Pump
pub mod World
mod Examples
use smoltcp_socks.Common.{
  ℕ, ◌%◌, ◌^◌, ◌-◌, Bool, true, false, not, ◌||◌, ◌&&◌, List, [], ◌∷◌, ◌++◌, Option, none, some,
  Bytes, codes, drop, is_empty, is_some, if◌then◌else◌, Result, ok, err, ◌>>=◌,
}
use smoltcp_socks.Common.Decimal.{parse_uint}
use smoltcp_socks.Common.Text.{strip_prefix}
use smoltcp_socks.Config.{Config}
use smoltcp_socks.Mpsc.{Mpsc}
use smoltcp_socks.Netstack.{resolve_mtu}
use smoltcp_socks.Netstack.Interface.{InterfaceApi, build_interface}
use smoltcp_socks.Netstack.Socket.{Tcp, SocketSet}
use smoltcp_socks.Netstack.Spawn.{NetstackHandle, System, stop, spawn}
use smoltcp_socks.Proxy.{ProxyUrl, ProxyUrlError, parse, into_proxy}
use smoltcp_socks.Socks5.{Socks5Proxy}
use smoltcp_socks.Device.{Packet, Bridge, capabilities}
use smoltcp_socks.Device

pub data StartError : Type 0 where
  empty_device empty_proxy : StartError
  parse_proxy_url : ProxyUrlError → StartError

-- `Runtime`, and `shutdown`: `running` says whether the actor's task still runs, and `none` is a send
-- that waits. The handle ends with the call.
pub record Runtime : Type 0 where
  pub handle : NetstackHandle

abbrev drop_handle : Option NetstackHandle → Option NetstackHandle
drop_handle none = none
drop_handle (some h) = some (record h { held = false })

unfoldable pub shutdown : Bool → Runtime → Option NetstackHandle
shutdown running r = drop_handle (stop running r.handle)

-- The crates that `start` calls: channels, interface, sockets and socket set.
module _ (m : Mpsc Packet) (api : InterfaceApi) (t : Tcp) (ss : SocketSet t) where
  -- What `start` hands to the tasks that it spawns, and the runtime that it returns: the actor has the
  -- interface and the phy, the dispatcher the dialer, the pump the device name and the MTU.
  pub record Started : Type 0 where
    pub proxy : Socks5Proxy
    pub bridge : Bridge m
    pub iface : api.Interface
    pub system : System t ss
    pub pump_device : Bytes
    pub pump_mtu : ℕ
    pub runtime : Runtime

  assemble :
      Config
      → ℕ
      → ProxyUrl
      → Bridge m
      → Option api.Interface
      → Option (System t ss)
      → Option Started
  assemble cfg mtu u bridge (some iface) (some system) = some (record {
    proxy = into_proxy u;
    bridge = bridge;
    iface = iface;
    system = system;
    pump_device = cfg.device;
    pump_mtu = mtu;
    runtime = record { handle = system.handle };
  })
  assemble cfg mtu u bridge (some iface) none = none
  assemble cfg mtu u bridge none system = none

  wire : ℕ → Config → ℕ → ProxyUrl → Option Started
  unfolding assemble
  wire now cfg mtu u =
      let bridge = Device.new m mtu in
      assemble cfg mtu u bridge (build_interface api now (capabilities bridge.phy)) (spawn t ss)

  ok_started : Option Started → Option (Result Started StartError)
  ok_started none = none
  ok_started (some r) = some (ok r)

  start_proxy : ℕ → Config → Result ProxyUrl ProxyUrlError → Option (Result Started StartError)
  unfolding wire ok_started
  start_proxy now cfg (err e) = some (err (parse_proxy_url e))
  start_proxy now cfg (ok u) = ok_started (wire now cfg (resolve_mtu cfg) u)

  -- `Runtime::start` at the time `now`; `none` is a panic.
  unfoldable pub start : ℕ → Config → Option (Result Started StartError)
  unfolding start_proxy
  start now cfg =
      if is_empty cfg.device
      then some (err empty_device)
      else if is_empty cfg.proxy
      then some (err empty_proxy)
      else start_proxy now cfg (parse cfg.proxy)

-- The MTU that `open_tun` configures: `mtu as u16`.
pub tun_mtu : ℕ → ℕ
tun_mtu mtu = mtu % 2 ^ 16

pub u32_max : ℕ
u32_max = 2 ^ 32 - 1

unwrap_or {ℓ} : {A : Type ℓ} → Option A → A → A
unwrap_or none d = d
unwrap_or (some a) d = a

or_else {ℓ} : {A : Type ℓ} → Option A → Option A → Option A
or_else none b = b
or_else (some a) b = some a

-- `starts_with("utun")` and a number behind it
utun_ok : Bytes → Bool
unfolding u32_max
utun_ok name =
    is_some (strip_prefix (codes "utun") name) && is_some (parse_uint u32_max (drop 4 name))

checked_name : Bool → Bytes → Result (Option Bytes) (Unit {0})
unfolding utun_ok
checked_name apple name =
    if is_empty name
    then ok none
    else if apple && not (utun_ok name)
    then err tt
    else ok (some name)

-- `apple` says for which platform the program is built.
pub parse_tun_name : Bool → Bytes → Result (Option Bytes) (Unit {0})
unfolding checked_name unwrap_or or_else
parse_tun_name apple spec = checked_name apple (
    unwrap_or (or_else (strip_prefix (codes "tun://") spec) (strip_prefix (codes "utun://") spec))
      spec)
