-- ===== src/Device/Receive.antt =====
-- The receiving side of src/device.rs: the loop of `receive` ends, and takes every packet in order.
use smoltcp_socks.Common.{
  ℕ, zero, suc, ◌≤◌, ◌<◌, ◌≡◌, refl, ap, sym, subst, ◌∙◌, Bool, true, false, List, [], ◌∷◌, ◌++◌,
  Option, none, some, append_assoc, length, arith,
}
use smoltcp_socks.Mpsc.{Mpsc, MpscLaws, SameEnds, first, behind}
use smoltcp_socks.Device.{
  Packet, Bridge, RxToken, TxToken, push_back, take_in, refill, popped, pop_front, then_pop,
  receive,
}

-- The packet of a receive token.
abbrev pub token_packets : Option (RxToken × TxToken) → List Packet
token_packets none = []
token_packets (some (t, x)) = t.buffer ∷ []

module _ (m : Mpsc Packet) where
  -- The packets on their way to smoltcp.
  abbrev pub inflow : Bridge m → List Packet
  inflow b = b.phy.inbound_buf ++ m.queued b.inbound

  -- The packets may have moved on inside the bridge; nothing else has changed.
  pub record SameFlow (b u : Bridge m) : Type 0 where
    pub same_inflow : inflow u ≡ inflow b
    pub same_ends : SameEnds m b.inbound u.inbound
    pub same_outbound : u.outbound ≡ b.outbound
    pub same_mtu : u.phy.mtu ≡ b.phy.mtu

  SameFlow-trans : {a b c : Bridge m} → SameFlow a b → SameFlow b c → SameFlow a c
  SameFlow-trans p q = record {
    same_inflow = q.same_inflow ∙ p.same_inflow;
    same_ends = record {
      depth = q.same_ends.depth ∙ p.same_ends.depth;
      has_sender = q.same_ends.has_sender ∙ p.same_ends.has_sender;
      has_receiver = q.same_ends.has_receiver ∙ p.same_ends.has_receiver;
    };
    same_outbound = q.same_outbound ∙ p.same_outbound;
    same_mtu = q.same_mtu ∙ p.same_mtu;
  }

  -- What a call of `receive` gives and leaves.
  pub record Received (b u : Bridge m) (t : Option (RxToken × TxToken)) : Type 0 where
    pub in_order : token_packets t ++ inflow u ≡ inflow b
    pub drained : m.queued u.inbound ≡ []
    pub none_left : t ≡ none → inflow b ≡ []
    pub ends_kept : SameEnds m b.inbound u.inbound
    pub outbound_kept : u.outbound ≡ b.outbound

  pub record IsPopped (b u : Bridge m) (t : Option (RxToken × TxToken)) : Type 0 where
    pub buffered : b.phy.inbound_buf ≡ token_packets t ++ u.phy.inbound_buf
    pub inbound_kept : u.inbound ≡ b.inbound
    pub outbound_kept : u.outbound ≡ b.outbound

  pub pop_front-IsPopped : (b : Bridge m) → IsPopped b (pop_front m b).1 (pop_front m b).0
  unfolding pop_front popped
  pop_front-IsPopped b = go b.phy.inbound_buf refl
    where
      go : (l : List Packet) → b.phy.inbound_buf ≡ l → IsPopped b (popped m l b).1 (popped m l b).0
      go [] e = record { buffered = refl; inbound_kept = refl; outbound_kept = refl }
      go (p ∷ l) e = record { buffered = e; inbound_kept = refl; outbound_kept = refl }

  module _ (laws : MpscLaws m) where
    abbrev IsTaken : Bridge m → Bool × Bridge m → Type 0
    IsTaken b (true, u) =
        SameFlow b u × (suc (length (m.queued u.inbound)) ≡ length (m.queued b.inbound))
    IsTaken b (false, u) = SameFlow b u × (m.queued u.inbound ≡ [])

    after_recv :
        (c : m.Chan) (r : Option Packet × m.Chan) (l : List Packet)
        → m.try_recv c ≡ r
        → m.queued c ≡ l
        → (r.0 ≡ first l) × (m.queued r.1 ≡ behind l) × SameEnds m c r.1
    after_recv c r l e f =
        subst (λ r. (r.0 ≡ first l) × (m.queued r.1 ≡ behind l) × SameEnds m c r.1) e
          (laws.recv_first c ∙ ap first f, laws.recv_queued c ∙ ap behind f, laws.recv_ends c)

    pub take_in-IsTaken : (b : Bridge m) → IsTaken b (take_in m b)
    unfolding take_in push_back
    take_in-IsTaken b = go (m.try_recv b.inbound) (m.queued b.inbound) refl refl
      where
        go :
            (r : Option Packet × m.Chan) (l : List Packet)
            → m.try_recv b.inbound ≡ r
            → m.queued b.inbound ≡ l
            → IsTaken b (push_back m r b)
        go (none, c) [] e f =
            let (_, q, s) = after_recv b.inbound (none, c) [] e f in
            (
              record {
                same_inflow = ap (◌++◌ b.phy.inbound_buf) (q ∙ sym f);
                same_ends = s;
                same_outbound = refl;
                same_mtu = refl;
              },
              q,
            )
        go (none, c) (x ∷ l) e f = cc (after_recv b.inbound (none, c) (x ∷ l) e f).0
        go (some p, c) [] e f = cc (after_recv b.inbound (some p, c) [] e f).0
        go (some p, c) (x ∷ l) e f =
            let (o, q, s) = after_recv b.inbound (some p, c) (x ∷ l) e f in
            (
              record {
                same_inflow =
                    append_assoc b.phy.inbound_buf (p ∷ []) (m.queued c)
                    ∙ ap (◌++◌ b.phy.inbound_buf) (cc (o, q, f));
                same_ends = s;
                same_outbound = refl;
                same_mtu = refl;
              },
              ground (arith, q, f),
            )

    taken_flow :
        (b : Bridge m) (r : Bool × Bridge m)
        → IsTaken b r
        → SameFlow b r.1 × (length (m.queued r.1.inbound) ≤ length (m.queued b.inbound))
    taken_flow b (true, u) k = (k.0, omega (arith, k.1))
    taken_flow b (false, u) k = (k.0, omega (arith, ap length k.1))

    pub take_in_flow :
        (b : Bridge m)
        → SameFlow b (take_in m b).1
          × (length (m.queued (take_in m b).1.inbound) ≤ length (m.queued b.inbound))
    take_in_flow b = taken_flow b (take_in m b) (take_in-IsTaken b)

    -- The fuel `n` brings the loop from `b` to its end.
    abbrev RefillEnds : ℕ → Bridge m → Type 0
    RefillEnds n b =
        (u : Bridge m) × (refill m n b ≡ some u) × SameFlow b u × (m.queued u.inbound ≡ [])

    refill_step :
        (n : ℕ) (b : Bridge m) (r : Bool × Bridge m)
        → take_in m b ≡ r
        → IsTaken b r
        → length (m.queued b.inbound) < suc n
        → ((u : Bridge m) → length (m.queued u.inbound) < n → RefillEnds n u)
        → RefillEnds (suc n) b
    unfolding refill
    refill_step n b (true, b') e k h later =
        let (u, f, s, d) = later b' (omega (arith, k.1, h)) in
        (u, rw (refill, e) (ap (λ q. refill m n q.1) e ∙ f), SameFlow-trans k.0 s, d)
    refill_step n b (false, b') e k h later = (b', rw (refill, e) (ap (λ q. some q.1) e), k.0, k.1)

    refill_ends : (n : ℕ) (b : Bridge m) → length (m.queued b.inbound) < n → RefillEnds n b
    refill_ends zero b h = absurd (omega arith)
    refill_ends (suc n) b h =
        refill_step n b (take_in m b) refl (take_in-IsTaken b) h (refill_ends n)

    popped_lem :
        (b u : Bridge m) (l : List Packet)
        → SameFlow b u
        → m.queued u.inbound ≡ []
        → u.phy.inbound_buf ≡ l
        → Received b (popped m l u).1 (popped m l u).0
    unfolding popped
    popped_lem b u [] s d e = record {
      in_order = s.same_inflow;
      drained = d;
      none_left = λ _. sym s.same_inflow ∙ rw (e, d) refl;
      ends_kept = s.same_ends;
      outbound_kept = s.same_outbound;
    }
    popped_lem b u (p ∷ l) s d e = record {
      in_order = ap (λ k. k ++ m.queued u.inbound) (sym e) ∙ s.same_inflow;
      drained = d;
      none_left = λ f. cc;
      ends_kept = s.same_ends;
      outbound_kept = s.same_outbound;
    }

    -- The loop of `receive` ends, whatever is queued: fuel for one test more than there are packets is
    -- enough. The channel is empty then, no packet is lost or out of order, the packet that smoltcp
    -- gets is the oldest, and it gets none only if there was none in the buffer or the channel.
    pub receive_ends :
        (n : ℕ) (b : Bridge m)
        → length (m.queued b.inbound) < n
        → (t : Option (RxToken × TxToken)) × (u : Bridge m) × (receive m n b ≡ some (t, u))
          × Received b u t
    unfolding receive then_pop pop_front
    receive_ends n b h =
        let (u, f, s, d) = refill_ends n b h in
        let r = popped m u.phy.inbound_buf u in
        (r.0, r.1, ap (then_pop m) f, popped_lem b u u.phy.inbound_buf s d refl)
