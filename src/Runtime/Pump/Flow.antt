-- ===== src/Runtime/Pump/Flow.antt =====
-- The packets between the TUN device and smoltcp: the pump of src/runtime.rs and the calls of smoltcp
-- on the `Phy` of src/device.rs as two tasks that run side by side, in any order. A step is what one
-- of them does between two uses of a channel.
use smoltcp_socks.Common.{
  ℕ, ◌≡◌, Bool, true, false, List, [], ◌∷◌, ◌++◌, Option, none, some, Bytes, replicate,
}
use smoltcp_socks.Mpsc.{Mpsc}
use smoltcp_socks.Device.{Packet, take_in, pop_front, consume}
use smoltcp_socks.Device.Receive.{token_packets}
use smoltcp_socks.Runtime.Pump.{PumpEvent, tun_read, outbound_ready, Pumping, leave, pump_round}
use smoltcp_socks.Runtime.Pump.Queue.{kept_if}

-- What went through: the packets that the pump put into the inbound channel, those that smoltcp got,
-- those that smoltcp put into the outbound channel, and those that the pump took from it, each with
-- whether its write to the device succeeded.
pub record Flow : Type 0 where
  pub arrived : List Packet
  pub delivered : List Packet
  pub sent : List Packet
  pub taken : List (Packet × Bool)

abbrev pub still : Flow
still = record { arrived = []; delivered = []; sent = []; taken = [] }

abbrev pub joined : Flow → Flow → Flow
joined f g = record {
  arrived = f.arrived ++ g.arrived;
  delivered = f.delivered ++ g.delivered;
  sent = f.sent ++ g.sent;
  taken = f.taken ++ g.taken;
}

abbrev pub packets : List (Packet × Bool) → List Packet
packets [] = []
packets ((p, written) ∷ l) = p ∷ packets l

abbrev pub written_of : List (Packet × Bool) → List Packet
written_of [] = []
written_of ((p, true) ∷ l) = p ∷ written_of l
written_of ((p, false) ∷ l) = written_of l

module _ (m : Mpsc Packet) where
  abbrev pub taken_by : Bool → Option (Option Packet × m.Chan) → List (Packet × Bool)
  taken_by written (some (some p, c)) = (p, written) ∷ []
  taken_by written _ = []

  -- What a round of the pump moves.
  abbrev pub pumped : PumpEvent → Pumping m → Flow
  pumped (tun_read none) s = still
  pumped (tun_read (some p)) s = record still {
    arrived = kept_if (m.try_send p s.bridge.inbound).0 p;
  }
  pumped (outbound_ready written) s = record still {
    taken = taken_by written (m.recv s.bridge.outbound);
  }

  -- The end of the actor's task drops `Phy`, and with it the two ends that it held.
  abbrev pub without_stack : Pumping m → Pumping m
  without_stack s = record s {
    bridge = record s.bridge {
      inbound = m.drop_receiver s.bridge.inbound;
      outbound = m.drop_sender s.bridge.outbound;
    };
  }

  pub data Step (s u : Pumping m) (f : Flow) : Type 0 where
    pumps : (e : PumpEvent) → s.running ≡ true → u ≡ pump_round m e s → f ≡ pumped e s → Step s u f
    cannot_open : s.running ≡ true → u ≡ leave m s → f ≡ still → Step s u f
    takes_in :
        m.has_receiver s.bridge.inbound ≡ true
        → u ≡ record s { bridge = (take_in m s.bridge).1 }
        → f ≡ still
        → Step s u f
    pops :
        m.has_receiver s.bridge.inbound ≡ true
        → u ≡ record s { bridge = (pop_front m s.bridge).1 }
        → f ≡ record still { delivered = token_packets (pop_front m s.bridge).0 }
        → Step s u f
    transmits :
        (len : ℕ) (fill : Bytes → Unit {0} × Bytes)
        → m.has_sender s.bridge.outbound ≡ true
        → u ≡ record s { bridge = (consume m len fill s.bridge).1 }
        → f ≡ (
            let p = (fill (replicate len 0)).1 in
            record still { sent = kept_if (m.try_send p s.bridge.outbound).0 p })
        → Step s u f
    stack_ends : u ≡ without_stack s → f ≡ still → Step s u f

  -- The actor's task goes on.
  abbrev pub IsMove : {s u : Pumping m} {f : Flow} → Step s u f → Type 0
  IsMove (stack_ends p q) = ⊥
  IsMove _ = Unit

  -- Any number of steps, with all that they moved.
  pub data Reach (s : Pumping m) : Pumping m → Flow → Type 0 where
    here : Reach s s still
    next :
        {u v : Pumping m} {f g h : Flow} → Reach s u f → Step u v g → h ≡ joined f g → Reach s v h
