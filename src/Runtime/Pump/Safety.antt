-- ===== src/Runtime/Pump/Safety.antt =====
-- What holds of the packets between the TUN device and smoltcp in every order in which the two tasks
-- of src/runtime.rs and src/device.rs run.
use mathlib.Core.Path.{subst₂}
use smoltcp_socks.Common.{
  ℕ, ◌≡◌, refl, ap, sym, subst, ◌∙◌, Bool, true, false, List, [], ◌∷◌, ◌++◌, Option, none, some,
  Bytes, replicate, append-nil, length, arith,
}
use smoltcp_socks.Mpsc.{Mpsc, MpscLaws}
use smoltcp_socks.Device.{RxToken, TxToken, Packet, take_in, pop_front, consume, new, queue_depth}
use smoltcp_socks.Device.Receive.{token_packets, take_in_flow, pop_front-IsPopped}
use smoltcp_socks.Runtime.Pump.{
  PumpEvent, tun_read, outbound_ready, Pumping, starting, leave, on_read, on_outbound, write_packet,
  pump_round,
}
use smoltcp_socks.Runtime.Pump.Queue.{
  kept_if, IsQueue, IsQueue-eq, IsQueue-new, IsQueue-send, IsQueue-moves, IsQueue-pops,
  IsQueue-drop_sender, IsQueue-drop_receiver, recv_some, recv_ended,
}
use smoltcp_socks.Runtime.Pump.Flow.{
  Flow, still, joined, packets, written_of, taken_by, pumped, Step, pumps, cannot_open, takes_in,
  pops, transmits, stack_ends, Reach, here, next,
}

packets-append : (a b : List (Packet × Bool)) → packets (a ++ b) ≡ packets a ++ packets b
packets-append [] b = refl
packets-append ((p, w) ∷ a) b = ap (◌∷◌ p) (packets-append a b)

written_of-append :
    (a b : List (Packet × Bool)) → written_of (a ++ b) ≡ written_of a ++ written_of b
written_of-append [] b = refl
written_of-append ((p, true) ∷ a) b = ap (◌∷◌ p) (written_of-append a b)
written_of-append ((p, false) ∷ a) b = written_of-append a b

module _ (m : Mpsc Packet) where
  -- Both channels are in order, the device was written what the pump took, but for the writes that
  -- failed, and the pump holds its receiver as long as it runs.
  pub record IsFlowing (s : Pumping m) (f : Flow) : Type 0 where
    pub inbound : IsQueue m s.bridge.inbound s.bridge.phy.inbound_buf f.arrived f.delivered
    pub outbound : IsQueue m s.bridge.outbound [] f.sent (packets f.taken)
    pub writes : s.written ≡ written_of f.taken
    pub receives : s.running ≡ true → m.has_receiver s.bridge.outbound ≡ true

  module _ (laws : MpscLaws m) where
    leave-IsFlowing : (s : Pumping m) (f : Flow) → IsFlowing s f → IsFlowing (leave m s) f
    unfolding leave
    leave-IsFlowing s f h = record {
      inbound = IsQueue-drop_sender m laws h.inbound;
      outbound = IsQueue-drop_receiver m laws h.outbound;
      writes = h.writes;
      receives = λ e. cc e;
    }

    pub step_still : {s : Pumping m} {f : Flow} → IsFlowing s f → IsFlowing s (joined f still)
    step_still {s} {f} h = record {
      inbound =
          IsQueue-eq m refl refl (sym (append-nil f.arrived)) (sym (append-nil f.delivered))
            h.inbound;
      outbound =
          IsQueue-eq m refl refl (sym (append-nil f.sent)) (ap packets (sym (append-nil f.taken)))
            h.outbound;
      writes = h.writes ∙ ap written_of (sym (append-nil f.taken));
      receives = h.receives;
    }

    read-IsFlowing :
        (o : Option Packet) (s : Pumping m) (f : Flow)
        → IsFlowing s f
        → IsFlowing (on_read m o s) (joined f (pumped m (tun_read o) s))
    unfolding on_read
    read-IsFlowing none s f h = step_still (leave-IsFlowing s f h)
    read-IsFlowing (some p) s f h =
        let k = step_still h in
        record {
          inbound =
              IsQueue-eq m refl refl refl (sym (append-nil f.delivered))
                (IsQueue-send m laws p h.inbound);
          outbound = k.outbound;
          writes = k.writes;
          receives = h.receives;
        }

    write_packet_lem :
        (w : Bool) (p : Packet) (l : List Packet) (taken : List (Packet × Bool))
        → l ≡ written_of taken
        → write_packet m w p l ≡ written_of (taken ++ (p, w) ∷ [])
    unfolding write_packet
    write_packet_lem true p l taken h =
        ap (λ k. k ++ p ∷ []) h ∙ sym (written_of-append taken ((p, true) ∷ []))
    write_packet_lem false p l taken h =
        h ∙ sym (append-nil (written_of taken)) ∙ sym (written_of-append taken ((p, false) ∷ []))

    outbound-IsFlowing :
        (written : Bool) (s : Pumping m) (f : Flow)
        → s.running ≡ true
        → IsFlowing s f
        → IsFlowing
            (on_outbound m written (m.recv s.bridge.outbound) s)
            (joined f (pumped m (outbound_ready written) s))
    unfolding on_outbound write_packet
    outbound-IsFlowing written s f r h = go written (m.recv s.bridge.outbound) refl
      where
        k : IsFlowing s (joined f still)
        k = step_still h

        go :
            (w : Bool) (o : Option (Option Packet × m.Chan))
            → m.recv s.bridge.outbound ≡ o
            → IsFlowing (on_outbound m w o s) (joined f (record still { taken = taken_by m w o }))
        go w none e = k
        go w (some (none, c)) e =
            let q = recv_ended m laws s.bridge.outbound c e in
            leave-IsFlowing (record s { bridge = record s.bridge { outbound = c } })
              (joined f still)
              (record {
                inbound = k.inbound;
                outbound = IsQueue-eq m q refl refl refl k.outbound;
                writes = k.writes;
                receives = λ x. ap m.has_receiver (sym q) ∙ h.receives x;
              })
        go w (some (some p, c)) e =
            let (same, q) = recv_some m laws s.bridge.outbound c p e in
            record {
              inbound = k.inbound;
              outbound =
                  IsQueue-eq m refl refl (sym (append-nil f.sent))
                    (sym (packets-append f.taken ((p, w) ∷ [])))
                    (IsQueue-pops m laws p same (h.receives r) q (omega (arith, ap length q))
                      h.outbound);
              writes = write_packet_lem w p s.written f.taken h.writes;
              receives = λ x. same.has_receiver ∙ h.receives x;
            }

    pump-IsFlowing :
        (e : PumpEvent) (s : Pumping m) (f : Flow)
        → s.running ≡ true
        → IsFlowing s f
        → IsFlowing (pump_round m e s) (joined f (pumped m e s))
    unfolding pump_round
    pump-IsFlowing (tun_read o) s f r h = read-IsFlowing o s f h
    pump-IsFlowing (outbound_ready w) s f r h = outbound-IsFlowing w s f r h

    take_in-IsFlowing :
        (s : Pumping m) (f : Flow)
        → IsFlowing s f
        → IsFlowing (record s { bridge = (take_in m s.bridge).1 }) f
    take_in-IsFlowing s f h =
        let (same, fewer) = take_in_flow m laws s.bridge in
        record {
          inbound = IsQueue-moves m laws same.same_ends same.same_inflow fewer h.inbound;
          outbound = IsQueue-eq m (sym same.same_outbound) refl refl refl h.outbound;
          writes = h.writes;
          receives = λ r. ap m.has_receiver same.same_outbound ∙ h.receives r;
        }

    popped-IsQueue :
        {c : m.Chan} {buf buf' ins outs : List Packet} (t : Option (RxToken × TxToken))
        → m.has_receiver c ≡ true
        → buf ≡ token_packets t ++ buf'
        → IsQueue m c buf ins outs
        → IsQueue m c buf' ins (outs ++ token_packets t)
    popped-IsQueue {outs} none r e q = IsQueue-eq m refl e refl (sym (append-nil outs)) q
    popped-IsQueue {c} (some (t, x)) r e q =
        IsQueue-pops m laws t.buffer
          (record { depth = refl; has_sender = refl; has_receiver = refl }) r
          (ap (λ b. b ++ m.queued c) e) (omega arith) q

    pop-IsFlowing :
        (s : Pumping m) (f : Flow)
        → m.has_receiver s.bridge.inbound ≡ true
        → IsFlowing s f
        → IsFlowing
            (record s { bridge = (pop_front m s.bridge).1 })
            (joined f (record still { delivered = token_packets (pop_front m s.bridge).0 }))
    pop-IsFlowing s f r h =
        let p = pop_front-IsPopped m s.bridge in
        let k = step_still h in
        record {
          inbound =
              IsQueue-eq m (sym p.inbound_kept) refl (sym (append-nil f.arrived)) refl
                (popped-IsQueue (pop_front m s.bridge).0 r p.buffered h.inbound);
          outbound = IsQueue-eq m (sym p.outbound_kept) refl refl refl k.outbound;
          writes = k.writes;
          receives = λ e. ap m.has_receiver p.outbound_kept ∙ h.receives e;
        }

    consume-IsFlowing :
        (len : ℕ) (fill : Bytes → Unit {0} × Bytes) (s : Pumping m) (f : Flow)
        → IsFlowing s f
        → IsFlowing
            (record s { bridge = (consume m len fill s.bridge).1 })
            (joined f (
              let p = (fill (replicate len 0)).1 in
              record still { sent = kept_if (m.try_send p s.bridge.outbound).0 p }))
    unfolding consume
    consume-IsFlowing len fill s f h =
        let p = (fill (replicate len 0)).1 in
        let k = step_still h in
        record {
          inbound = k.inbound;
          outbound =
              IsQueue-eq m refl refl refl (ap packets (sym (append-nil f.taken)))
                (IsQueue-send m laws p h.outbound);
          writes = k.writes;
          receives = λ e. (laws.send_ends p s.bridge.outbound).has_receiver ∙ h.receives e;
        }

    stack_ends-IsFlowing :
        (s : Pumping m) (f : Flow)
        → IsFlowing s f
        → IsFlowing
            (record s {
              bridge = record s.bridge {
                inbound = m.drop_receiver s.bridge.inbound;
                outbound = m.drop_sender s.bridge.outbound;
              };
            })
            f
    stack_ends-IsFlowing s f h = record {
      inbound = IsQueue-drop_receiver m laws h.inbound;
      outbound = IsQueue-drop_sender m laws h.outbound;
      writes = h.writes;
      receives = λ e. laws.sender_receiver s.bridge.outbound ∙ h.receives e;
    }

    pub Step-IsFlowing :
        (s u : Pumping m) (f g : Flow) → Step m s u g → IsFlowing s f → IsFlowing u (joined f g)
    Step-IsFlowing s u f g (pumps e r p q) h =
        subst₂ (λ u g. IsFlowing u (joined f g)) (sym p) (sym q) (pump-IsFlowing e s f r h)
    Step-IsFlowing s u f g (cannot_open r p q) h =
        subst₂ (λ u g. IsFlowing u (joined f g)) (sym p) (sym q)
          (step_still (leave-IsFlowing s f h))
    Step-IsFlowing s u f g (takes_in r p q) h =
        subst₂ (λ u g. IsFlowing u (joined f g)) (sym p) (sym q)
          (step_still (take_in-IsFlowing s f h))
    Step-IsFlowing s u f g (pops r p q) h =
        subst₂ (λ u g. IsFlowing u (joined f g)) (sym p) (sym q) (pop-IsFlowing s f r h)
    Step-IsFlowing s u f g (transmits len fill r p q) h =
        subst₂ (λ u g. IsFlowing u (joined f g)) (sym p) (sym q) (consume-IsFlowing len fill s f h)
    Step-IsFlowing s u f g (stack_ends p q) h =
        subst₂ (λ u g. IsFlowing u (joined f g)) (sym p) (sym q)
          (step_still (stack_ends-IsFlowing s f h))

    pub starting-IsFlowing : (mtu : ℕ) → IsFlowing (starting m (new m mtu)) still
    unfolding new
    starting-IsFlowing mtu = record {
      inbound = IsQueue-new m laws;
      outbound = IsQueue-new m laws;
      writes = refl;
      receives = λ _. laws.new_receiver queue_depth;
    }

    -- From the start, in every order in which the pump and the stack run: the packets that smoltcp
    -- gets are those that the pump put into the channel, in order, and the packets that the pump
    -- takes are those that smoltcp sent, in order; those that are missing are still buffered, unless
    -- the receiver has ended. Neither channel holds more than its depth, and the device was written
    -- exactly the packets that were taken, but for those whose write failed.
    pub packets-IsFlowing :
        (mtu : ℕ) (s : Pumping m) (f : Flow) → Reach m (starting m (new m mtu)) s f → IsFlowing s f
    packets-IsFlowing mtu _ _ here = starting-IsFlowing mtu
    packets-IsFlowing mtu s h (next {u} {f} {g} r step e) =
        subst (IsFlowing s) (sym e) (Step-IsFlowing u s f g step (packets-IsFlowing mtu u f r))
