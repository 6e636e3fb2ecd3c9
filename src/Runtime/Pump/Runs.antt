-- ===== src/Runtime/Pump/Runs.antt =====
-- The loop of `tun_pump` of src/runtime.rs is one of the runs of Runtime/Pump/Flow.antt.
use smoltcp_socks.Common.{ℕ, ◌≡◌, refl, Bool, true, false, List, [], ◌∷◌, Bytes, Result, ok, err}
use smoltcp_socks.Mpsc.{Mpsc, MpscLaws}
use smoltcp_socks.Device.{Packet, new}
use smoltcp_socks.Runtime.Pump.{
  PumpEvent, Pumping, starting, pump_round, pump, pump_device, Tun, open_tun, tun_pump,
}
use smoltcp_socks.Runtime.Pump.Flow.{Flow, still, Reach, here, next, pumps, cannot_open}
use smoltcp_socks.Runtime.Pump.Safety.{IsFlowing, packets-IsFlowing}

module _ (m : Mpsc Packet) where
  -- `events` lead from `s`, which is reached from `s0`, to another state that is.
  abbrev Runs : Pumping m → Pumping m → Type 0
  Runs s0 u = (g : Flow) × Reach m s0 u g

  pump_next :
      (events : List PumpEvent) (s0 u : Pumping m) (b : Bool)
      → u.running ≡ b
      → Runs s0 u
      → (u.running ≡ true → Runs s0 (pump m events u))
      → Runs s0 (elim b [ true ↦ pump m events u | false ↦ u ])
  pump_next events s0 u true k h later = later k
  pump_next events s0 u false k h later = h

  pump-Reach :
      (events : List PumpEvent) (s0 s : Pumping m)
      → s.running ≡ true
      → Runs s0 s
      → Runs s0 (pump m events s)
  unfolding pump
  pump-Reach [] s0 s r h = h
  pump-Reach (e ∷ events) s0 s r h =
      let u = pump_round m e s in
      let reached : Runs s0 u = (_, next h.1 (pumps e r refl refl) refl) in
      pump_next events s0 u u.running refl reached (λ k. pump-Reach events s0 u k reached)

  pump_device-Reach :
      {D E : Type 0} (o : Result D E) (events : List PumpEvent) (s : Pumping m)
      → s.running ≡ true
      → Runs s (pump_device m o events s)
  unfolding pump_device
  pump_device-Reach (ok d) events s r = pump-Reach events s s r (still, here)
  pump_device-Reach (err e) events s r = (_, next here (cannot_open r refl refl) refl)

  -- Whatever the pump of a new bridge meets, what it has moved is in order.
  tun_pump-IsFlowing :
      MpscLaws m
      → (tun : Tun) (apple : Bool) (spec : Bytes) (mtu : ℕ) (events : List PumpEvent)
      → (f : Flow) × IsFlowing m (tun_pump m tun apple spec mtu events (starting m (new m mtu))) f
  unfolding tun_pump
  tun_pump-IsFlowing laws tun apple spec mtu events =
      let s = starting m (new m mtu) in
      let (f, r) = pump_device-Reach (open_tun tun apple spec mtu) events s refl in
      (f, packets-IsFlowing m laws mtu _ f r)
