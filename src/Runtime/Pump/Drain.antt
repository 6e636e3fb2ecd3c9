-- ===== src/Runtime/Pump/Drain.antt =====
-- What one round of the pump of src/runtime.rs does with the outbound channel.
use smoltcp_socks.Common.{
  ◌≡◌, refl, ap, ◌∙◌, true, false, List, [], ◌∷◌, none, some, Bool, if◌then◌else◌,
}
use smoltcp_socks.Mpsc.{Mpsc, MpscLaws, first, behind}
use smoltcp_socks.Device.{Packet}
use smoltcp_socks.Runtime.Pump.{Pumping, outbound_ready, leave, on_outbound, pump_round}
use smoltcp_socks.Runtime.Pump.Flow.{taken_by}

module _ (m : Mpsc Packet) (laws : MpscLaws m) where
  -- A packet that is there leaves the channel.
  pub round_takes :
      (s : Pumping m) (p : Packet) (l : List Packet)
      → m.queued s.bridge.outbound ≡ p ∷ l
      → ((pump_round m (outbound_ready true) s).running ≡ s.running)
        × (m.queued (pump_round m (outbound_ready true) s).bridge.outbound ≡ l)
  unfolding pump_round on_outbound
  round_takes s p l e =
      let c = s.bridge.outbound in
      let r = laws.recv_ready c p (ap first e) in
      (rw r refl, rw r (laws.recv_queued c ∙ ap behind e))

  -- Without a packet and without a sender the pump ends.
  pub round_ends :
      (s : Pumping m)
      → m.queued s.bridge.outbound ≡ []
      → m.has_sender s.bridge.outbound ≡ false
      → ((pump_round m (outbound_ready true) s).running ≡ false)
        × (taken_by m true (m.recv s.bridge.outbound) ≡ [])
  unfolding pump_round on_outbound leave
  round_ends s e off =
      let c = s.bridge.outbound in
      let r : m.recv c ≡ some (none, c) =
        laws.recv_waits c e ∙ ap (λ (b : Bool). if b then none else some (none, c)) off in
      (rw r refl, rw r refl)
