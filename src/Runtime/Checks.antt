-- ===== src/Runtime/Checks.antt =====
-- What `Runtime::start` of src/runtime.rs lets through, and what it starts.
use smoltcp_socks.Common.{
  ℕ, ◌≡◌, ◌≢◌, refl, ap, subst, true, false, List, [], ◌∷◌, is_empty, some, Result, ok, err,
  Bool-cases, inl, inr,
}
use smoltcp_socks.Config.{Config}
use smoltcp_socks.Mpsc.{Mpsc}
use smoltcp_socks.Netstack.{resolve_mtu}
use smoltcp_socks.Netstack.Interface.{InterfaceApi, InterfaceLaws, IsOpen, build_interface-IsOpen}
use smoltcp_socks.Netstack.Socket.{Tcp, TcpLaws, SocketSet, SocketSetLaws}
use smoltcp_socks.Netstack.Spawn.{spawn}
use smoltcp_socks.Netstack.Spawn.Safety.{IsSafe, spawn-IsSafe, spawn_unused}
use smoltcp_socks.Device.{Packet, capabilities}
use smoltcp_socks.Device
use smoltcp_socks.Proxy.{ProxyUrl, ProxyUrlError, parse, into_proxy}
use smoltcp_socks.Runtime.{
  StartError, empty_device, empty_proxy, parse_proxy_url, Started, start, start_proxy, ok_started,
  wire, assemble,
}

not_empty : {A : Type 0} (s : List A) → is_empty s ≡ false → s ≢ []
not_empty s h e = cc

empty : {A : Type 0} (s : List A) → is_empty s ≡ true → s ≡ []
empty [] h = refl
empty (x ∷ s) h = cc

module _ (m : Mpsc Packet) (api : InterfaceApi) (t : Tcp) (ss : SocketSet t) where
  -- What a started program is made of.
  pub record IsStarted (cfg : Config) (r : Started m api t ss) : Type 0 where
    pub url : ProxyUrl
    pub url_parsed : parse cfg.proxy ≡ ok url
    pub dialer : r.proxy ≡ into_proxy url
    pub stack_open : IsOpen api r.iface
    pub spawned : spawn t ss ≡ some r.system
    pub tasks_safe : IsSafe t ss r.system []
    pub bridge_new : r.bridge ≡ Device.new m r.pump_mtu
    pub same_device : r.pump_device ≡ cfg.device
    pub same_mtu : r.pump_mtu ≡ (capabilities r.bridge.phy).max_transmission_unit
    pub mtu_resolved : r.pump_mtu ≡ resolve_mtu cfg
    pub same_handle : r.runtime.handle ≡ r.system.handle
    pub no_stop_yet : r.runtime.handle.sent ≡ 0

  -- What `start` makes of a configuration.
  abbrev pub Outcome : Config → Result (Started m api t ss) StartError → Type 0
  Outcome cfg (ok r) = (cfg.device ≢ []) × (cfg.proxy ≢ []) × IsStarted cfg r
  Outcome cfg (err empty_device) = cfg.device ≡ []
  Outcome cfg (err empty_proxy) = (cfg.device ≢ []) × (cfg.proxy ≡ [])
  Outcome cfg (err (parse_proxy_url e)) =
      (cfg.device ≢ []) × (cfg.proxy ≢ []) × (parse cfg.proxy ≡ err e)

  module _ (iface_laws : InterfaceLaws api) (laws : TcpLaws t) (set_laws : SocketSetLaws t ss) where
    wire-IsStarted :
        (now : ℕ) (cfg : Config) (u : ProxyUrl)
        → parse cfg.proxy ≡ ok u
        → (r : Started m api t ss) × (wire m api t ss now cfg (resolve_mtu cfg) u ≡ some r)
          × IsStarted cfg r
    unfolding wire assemble capabilities Device.new
    wire-IsStarted now cfg u h =
        let bridge = Device.new m (resolve_mtu cfg) in
        let (i, e, is_open) =
          build_interface-IsOpen api iface_laws now (capabilities bridge.phy) refl in
        let (s, f, safe) = spawn-IsSafe t laws ss set_laws in
        (
          record {
            proxy = into_proxy u;
            bridge = bridge;
            iface = i;
            system = s;
            pump_device = cfg.device;
            pump_mtu = resolve_mtu cfg;
            runtime = record { handle = s.handle };
          },
          rw (e, f) refl,
          record {
            url = u;
            url_parsed = h;
            dialer = refl;
            stack_open = is_open;
            spawned = f;
            tasks_safe = safe;
            bridge_new = refl;
            same_device = refl;
            same_mtu = refl;
            mtu_resolved = refl;
            same_handle = refl;
            no_stop_yet = spawn_unused t laws ss set_laws s f;
          },
        )

    start_proxy_lem :
        (now : ℕ) (cfg : Config) (p : Result ProxyUrl ProxyUrlError)
        → cfg.device ≢ []
        → cfg.proxy ≢ []
        → parse cfg.proxy ≡ p
        → (r : Result (Started m api t ss) StartError) × (start_proxy m api t ss now cfg p ≡ some r)
          × Outcome cfg r
    unfolding start_proxy ok_started
    start_proxy_lem now cfg (err e) d q h = (err (parse_proxy_url e), refl, (d, q, h))
    start_proxy_lem now cfg (ok u) d q h =
        let (r, e, s) = wire-IsStarted now cfg u h in
        (ok r, ap (ok_started m api t ss) e, (d, q, s))

    -- A start does not panic. It fails exactly if the device is empty, or else the proxy is, or else
    -- the proxy's URL is refused, with the error for each. Otherwise the dialer is the one of the URL,
    -- the stack takes packets for every address and has a default route of each family, the tasks
    -- start safe, and the pump, the device and the stack work with the same MTU.
    pub start-Outcome :
        (now : ℕ) (cfg : Config)
        → (r : Result (Started m api t ss) StartError) × (start m api t ss now cfg ≡ some r)
          × Outcome cfg r
    unfolding start
    start-Outcome now cfg = elim (Bool-cases (is_empty cfg.device)) [
      | inl e ↦ (err empty_device, rw e refl, empty cfg.device e)
      | inr d ↦ elim (Bool-cases (is_empty cfg.proxy)) [
        | inl e ↦ (err empty_proxy, rw (d, e) refl, (not_empty cfg.device d, empty cfg.proxy e))
        | inr p ↦
            let (r, e, o) =
              start_proxy_lem now cfg (parse cfg.proxy) (not_empty cfg.device d)
                (not_empty cfg.proxy p) refl in
            (r, rw (d, p) e, o)
      ]
    ]

    pub start-IsStarted :
        (now : ℕ) (cfg : Config) (r : Started m api t ss)
        → start m api t ss now cfg ≡ some (ok r)
        → IsStarted cfg r
    start-IsStarted now cfg r h =
        let (q, e, o) = start-Outcome now cfg in
        let o' : Outcome cfg (ok r) = subst (Outcome cfg) {y = ok r} (cc (e, h)) o in o'.2
