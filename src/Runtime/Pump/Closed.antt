-- ===== src/Runtime/Pump/Closed.antt =====
-- What becomes of the packets when the pump of src/runtime.rs has ended, or could not open its device.
use smoltcp_socks.Common.{
  ℕ, ◌≡◌, refl, ap, sym, subst, ◌∙◌, Bool, false, List, [], Bytes, err, replicate,
}
use smoltcp_socks.Mpsc.{Mpsc, MpscLaws}
use smoltcp_socks.Device.{Packet, consume}
use smoltcp_socks.Device.Receive.{take_in_flow, pop_front-IsPopped}
use smoltcp_socks.Runtime.Pump.{
  PumpEvent, Pumping, leave, Tun, OpenError, open_tun, tun_pump, pump_device,
}
use smoltcp_socks.Runtime.Pump.Flow.{
  Flow, still, joined, Step, pumps, cannot_open, takes_in, pops, transmits, stack_ends, Reach, here,
  next,
}

-- Nothing reached the stack from the device, or the device from the stack.
pub record IsIdle (f : Flow) : Type 0 where
  pub no_arrival : f.arrived ≡ []
  pub no_send : f.sent ≡ []
  pub no_take : f.taken ≡ []

IsIdle-still : (f : Flow) → IsIdle f → IsIdle (joined f still)
IsIdle-still f h = record {
  no_arrival = rw h.no_arrival refl;
  no_send = rw h.no_send refl;
  no_take = rw h.no_take refl;
}

-- The pump has ended, and this is what it had written.
pub record IsClosed (m : Mpsc Packet) (s : Pumping m) (written : List Packet) : Type 0 where
  pub stopped : s.running ≡ false
  pub no_receiver : m.has_receiver s.bridge.outbound ≡ false
  pub same_written : s.written ≡ written

module _ (m : Mpsc Packet) (laws : MpscLaws m) where
  refused : (p : Packet) (c : m.Chan) → m.has_receiver c ≡ false → (m.try_send p c).0 ≡ false
  refused p c h = laws.send_admits p c ∙ rw h refl

  Step-IsClosed :
      (s u : Pumping m) (f g : Flow) (w : List Packet)
      → Step m s u g
      → IsClosed m s w
      → IsIdle f
      → IsClosed m u w × IsIdle (joined f g)
  unfolding consume
  Step-IsClosed s u f g w (pumps e r p q) h i = cc (r, h.stopped)
  Step-IsClosed s u f g w (cannot_open r p q) h i = cc (r, h.stopped)
  Step-IsClosed s u f g w (takes_in r p q) h i =
      rw (p, q)
        (
          record {
            stopped = h.stopped;
            no_receiver =
                ap m.has_receiver (take_in_flow m laws s.bridge).0.same_outbound ∙ h.no_receiver;
            same_written = h.same_written;
          },
          IsIdle-still f i,
        )
  Step-IsClosed s u f g w (pops r p q) h i =
      rw (p, q)
        (
          record {
            stopped = h.stopped;
            no_receiver =
                ap m.has_receiver (pop_front-IsPopped m s.bridge).outbound_kept ∙ h.no_receiver;
            same_written = h.same_written;
          },
          record {
            no_arrival = rw i.no_arrival refl;
            no_send = rw i.no_send refl;
            no_take = rw i.no_take refl;
          },
        )
  Step-IsClosed s u f g w (transmits len fill r p q) h i =
      let x = (fill (replicate len 0)).1 in
      rw (p, q)
        (
          record {
            stopped = h.stopped;
            no_receiver = (laws.send_ends x s.bridge.outbound).has_receiver ∙ h.no_receiver;
            same_written = h.same_written;
          },
          record {
            no_arrival = rw i.no_arrival refl;
            no_send = rw (i.no_send, refused x s.bridge.outbound h.no_receiver) refl;
            no_take = rw i.no_take refl;
          },
        )
  Step-IsClosed s u f g w (stack_ends p q) h i =
      rw (p, q)
        (
          record {
            stopped = h.stopped;
            no_receiver = laws.sender_receiver s.bridge.outbound ∙ h.no_receiver;
            same_written = h.same_written;
          },
          IsIdle-still f i,
        )

  Reach-IsClosed :
      (s u : Pumping m) (f : Flow) (w : List Packet)
      → Reach m s u f
      → IsClosed m s w
      → IsClosed m u w × IsIdle f
  Reach-IsClosed s _ _ w here h = (h, record { no_arrival = refl; no_send = refl; no_take = refl })
  Reach-IsClosed s v k w (next {u} {f} {g} r step e) h =
      let (c, i) = Reach-IsClosed s u f w r h in
      let (c', i') = Step-IsClosed u v f g w step c i in (c', subst IsIdle (sym e) i')

  leave-IsClosed : (s : Pumping m) → IsClosed m (leave m s) s.written
  unfolding leave
  leave-IsClosed s = record {
    stopped = refl;
    no_receiver = laws.receiver_dropped s.bridge.outbound;
    same_written = refl;
  }

  -- If the device cannot be opened, then the pump ends at once, and the stack runs on without it:
  -- whatever happens next, no packet arrives, every packet that smoltcp sends is dropped, and nothing
  -- is written to a device.
  pub unopened-IsClosed :
      (tun : Tun) (apple : Bool) (spec : Bytes) (mtu : ℕ) (events : List PumpEvent)
      (s u : Pumping m) (f : Flow) (e : OpenError tun)
      → open_tun tun apple spec mtu ≡ err e
      → Reach m (tun_pump m tun apple spec mtu events s) u f
      → IsClosed m u s.written × IsIdle f
  unfolding tun_pump pump_device
  unopened-IsClosed tun apple spec mtu events s u f e h r =
      Reach-IsClosed (leave m s) u f s.written
        (subst (λ o. Reach m (pump_device m o events s) u f) h r) (leave-IsClosed s)
