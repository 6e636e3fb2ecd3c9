-- ===== src/Runtime/Pump/Links.antt =====
-- Who holds the ends of the two packet channels: the actor the receiver of the inbound one and the
-- sender of the outbound one, the pump the other two.
use smoltcp_socks.Common.{
  ℕ, ◌≡◌, refl, ap, sym, subst, ◌∙◌, Bool, true, false, Option, none, some, Bytes, replicate,
}
use smoltcp_socks.Mpsc.{Mpsc, MpscLaws}
use smoltcp_socks.Device.{Packet, new, take_in, pop_front, consume, queue_depth}
use smoltcp_socks.Device.Receive.{take_in_flow, pop_front-IsPopped}
use smoltcp_socks.Runtime.Pump.{
  PumpEvent, tun_read, outbound_ready, Pumping, starting, leave, on_read, on_outbound, pump_round,
}
use smoltcp_socks.Runtime.Pump.Queue.{recv_some, recv_ended}
use smoltcp_socks.Runtime.Pump.Flow.{
  Flow, Step, pumps, cannot_open, takes_in, pops, transmits, stack_ends, IsMove, without_stack,
}

module _ (m : Mpsc Packet) where
  -- `stack` says whether the actor's task runs.
  pub record IsLinked (stack : Bool) (s : Pumping m) : Type 0 where
    pub stack_receives : m.has_receiver s.bridge.inbound ≡ stack
    pub stack_sends : m.has_sender s.bridge.outbound ≡ stack
    pub pump_sends : m.has_sender s.bridge.inbound ≡ s.running
    pub pump_receives : m.has_receiver s.bridge.outbound ≡ s.running

  module _ (laws : MpscLaws m) where
    pub starting-IsLinked : (mtu : ℕ) → IsLinked true (starting m (new m mtu))
    unfolding new
    starting-IsLinked mtu = record {
      stack_receives = laws.new_receiver queue_depth;
      stack_sends = laws.new_sender queue_depth;
      pump_sends = laws.new_sender queue_depth;
      pump_receives = laws.new_receiver queue_depth;
    }

    pub without_stack-IsLinked :
        (stack : Bool) (s : Pumping m) → IsLinked stack s → IsLinked false (without_stack m s)
    without_stack-IsLinked stack s h = record {
      stack_receives = laws.receiver_dropped s.bridge.inbound;
      stack_sends = laws.sender_dropped s.bridge.outbound;
      pump_sends = laws.receiver_sender s.bridge.inbound ∙ h.pump_sends;
      pump_receives = laws.sender_receiver s.bridge.outbound ∙ h.pump_receives;
    }

    leave-IsLinked : (stack : Bool) (s : Pumping m) → IsLinked stack s → IsLinked stack (leave m s)
    unfolding leave
    leave-IsLinked stack s h = record {
      stack_receives = laws.sender_receiver s.bridge.inbound ∙ h.stack_receives;
      stack_sends = laws.receiver_sender s.bridge.outbound ∙ h.stack_sends;
      pump_sends = laws.sender_dropped s.bridge.inbound;
      pump_receives = laws.receiver_dropped s.bridge.outbound;
    }

    read-IsLinked :
        (stack : Bool) (o : Option Packet) (s : Pumping m)
        → IsLinked stack s
        → IsLinked stack (on_read m o s)
    unfolding on_read
    read-IsLinked stack none s h = leave-IsLinked stack s h
    read-IsLinked stack (some p) s h =
        let ends = laws.send_ends p s.bridge.inbound in
        record {
          stack_receives = ends.has_receiver ∙ h.stack_receives;
          stack_sends = h.stack_sends;
          pump_sends = ends.has_sender ∙ h.pump_sends;
          pump_receives = h.pump_receives;
        }

    outbound-IsLinked :
        (stack w : Bool) (o : Option (Option Packet × m.Chan)) (s : Pumping m)
        → m.recv s.bridge.outbound ≡ o
        → IsLinked stack s
        → IsLinked stack (on_outbound m w o s)
    unfolding on_outbound
    outbound-IsLinked stack w none s e h = h
    outbound-IsLinked stack w (some (none, c)) s e h =
        let q = recv_ended m laws s.bridge.outbound c e in
        leave-IsLinked stack (record s { bridge = record s.bridge { outbound = c } })
          (record {
            stack_receives = h.stack_receives;
            stack_sends = ap m.has_sender (sym q) ∙ h.stack_sends;
            pump_sends = h.pump_sends;
            pump_receives = ap m.has_receiver (sym q) ∙ h.pump_receives;
          })
    outbound-IsLinked stack w (some (some p, c)) s e h =
        let (ends, q) = recv_some m laws s.bridge.outbound c p e in
        record {
          stack_receives = h.stack_receives;
          stack_sends = ends.has_sender ∙ h.stack_sends;
          pump_sends = h.pump_sends;
          pump_receives = ends.has_receiver ∙ h.pump_receives;
        }

    round-IsLinked :
        (stack : Bool) (e : PumpEvent) (s : Pumping m)
        → IsLinked stack s
        → IsLinked stack (pump_round m e s)
    unfolding pump_round
    round-IsLinked stack (tun_read o) s h = read-IsLinked stack o s h
    round-IsLinked stack (outbound_ready w) s h =
        outbound-IsLinked stack w (m.recv s.bridge.outbound) s refl h

    take_in-IsLinked :
        (stack : Bool) (s : Pumping m)
        → IsLinked stack s
        → IsLinked stack (record s { bridge = (take_in m s.bridge).1 })
    take_in-IsLinked stack s h =
        let same = (take_in_flow m laws s.bridge).0 in
        record {
          stack_receives = same.same_ends.has_receiver ∙ h.stack_receives;
          stack_sends = ap m.has_sender same.same_outbound ∙ h.stack_sends;
          pump_sends = same.same_ends.has_sender ∙ h.pump_sends;
          pump_receives = ap m.has_receiver same.same_outbound ∙ h.pump_receives;
        }

    pop-IsLinked :
        (stack : Bool) (s : Pumping m)
        → IsLinked stack s
        → IsLinked stack (record s { bridge = (pop_front m s.bridge).1 })
    pop-IsLinked stack s h =
        let p = pop_front-IsPopped m s.bridge in
        record {
          stack_receives = ap m.has_receiver p.inbound_kept ∙ h.stack_receives;
          stack_sends = ap m.has_sender p.outbound_kept ∙ h.stack_sends;
          pump_sends = ap m.has_sender p.inbound_kept ∙ h.pump_sends;
          pump_receives = ap m.has_receiver p.outbound_kept ∙ h.pump_receives;
        }

    consume-IsLinked :
        (stack : Bool) (len : ℕ) (fill : Bytes → Unit {0} × Bytes) (s : Pumping m)
        → IsLinked stack s
        → IsLinked stack (record s { bridge = (consume m len fill s.bridge).1 })
    unfolding consume
    consume-IsLinked stack len fill s h =
        let ends = laws.send_ends (fill (replicate len 0)).1 s.bridge.outbound in
        record {
          stack_receives = h.stack_receives;
          stack_sends = ends.has_sender ∙ h.stack_sends;
          pump_sends = h.pump_sends;
          pump_receives = ends.has_receiver ∙ h.pump_receives;
        }

    pub Step-IsLinked :
        (stack : Bool) (s u : Pumping m) (f : Flow) (st : Step m s u f)
        → IsMove m st
        → IsLinked stack s
        → IsLinked stack u
    Step-IsLinked stack s u f (pumps e r p q) k h =
        subst (IsLinked stack) (sym p) (round-IsLinked stack e s h)
    Step-IsLinked stack s u f (cannot_open r p q) k h =
        subst (IsLinked stack) (sym p) (leave-IsLinked stack s h)
    Step-IsLinked stack s u f (takes_in r p q) k h =
        subst (IsLinked stack) (sym p) (take_in-IsLinked stack s h)
    Step-IsLinked stack s u f (pops r p q) k h =
        subst (IsLinked stack) (sym p) (pop-IsLinked stack s h)
    Step-IsLinked stack s u f (transmits len fill r p q) k h =
        subst (IsLinked stack) (sym p) (consume-IsLinked stack len fill s h)
    Step-IsLinked stack s u f (stack_ends p q) k h = elim k [ ]
