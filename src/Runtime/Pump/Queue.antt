-- ===== src/Runtime/Pump/Queue.antt =====
-- A bounded channel between two tasks, by what went in and what came out. The packets of `buf` have
-- left the channel, but not the receiver.
use mathlib.Core.Path.{subst₂}
use smoltcp_socks.Common.{
  ◌≤◌, ◌<◌, ◌≡◌, refl, ap, sym, subst, ◌∙◌, Bool, true, false, List, [], ◌∷◌, ◌++◌, none, some,
  append_assoc, append-nil, length, length-append, arith, if◌then◌else◌, ◌⊎◌, inl, inr, Bool-cases,
}
use smoltcp_socks.Mpsc.{Mpsc, MpscLaws, SameEnds, first, behind, admits}
use smoltcp_socks.Device.{Packet, queue_depth}

abbrev pub kept_if : Bool → Packet → List Packet
kept_if true p = p ∷ []
kept_if false p = []

module _ (m : Mpsc Packet) where
  -- As long as there is a receiver, what went in came out in order, or is left in the buffer and the
  -- channel, in this order. The channel holds no more than its depth.
  pub record IsQueue (c : m.Chan) (buf ins outs : List Packet) : Type 0 where
    pub left : List Packet
    pub order : ins ≡ outs ++ left
    pub live : m.has_receiver c ≡ true → left ≡ buf ++ m.queued c
    pub deep : m.depth c ≡ queue_depth
    pub bounded : length (m.queued c) ≤ queue_depth

  pub IsQueue-eq :
      {c d : m.Chan} {buf buf' ins ins' outs outs' : List Packet}
      → c ≡ d
      → buf ≡ buf'
      → ins ≡ ins'
      → outs ≡ outs'
      → IsQueue c buf ins outs
      → IsQueue d buf' ins' outs'
  IsQueue-eq {c} {buf} {ins'} {outs'} p q r s h =
      subst₂ (λ c buf. IsQueue c buf ins' outs') p q (subst₂ (λ i o. IsQueue c buf i o) r s h)

  pub IsQueue-new : (laws : MpscLaws m) → IsQueue (m.channel queue_depth) [] [] []
  IsQueue-new laws = record {
    left = [];
    order = refl;
    live = λ _. sym (laws.new_queued queue_depth);
    deep = laws.new_depth queue_depth;
    bounded = omega (arith, ap length (laws.new_queued queue_depth));
  }

  module _ (laws : MpscLaws m) {c : m.Chan} {buf ins outs : List Packet} where
    pub IsQueue-send :
        (p : Packet)
        → IsQueue c buf ins outs
        → IsQueue (m.try_send p c).1 buf (ins ++ kept_if (m.try_send p c).0 p) outs
    IsQueue-send p q = go (m.try_send p c).0 refl
      where
        d : m.Chan
        d = (m.try_send p c).1

        ends : SameEnds m c d
        ends = laws.send_ends p c

        sent :
            (b : Bool)
            → (m.try_send p c).0 ≡ b
            → m.queued d ≡ (if b then m.queued c ++ p ∷ [] else m.queued c)
        sent b e =
            subst (λ b. m.queued d ≡ (if b then m.queued c ++ p ∷ [] else m.queued c)) e
              (laws.send_queued p c)

        fits : admits m c ≡ true → length (m.queued c) < m.depth c
        fits h = ground arith

        go : (b : Bool) → (m.try_send p c).0 ≡ b → IsQueue d buf (ins ++ kept_if b p) outs
        go true e = record {
          left = q.left ++ p ∷ [];
          order = ap (λ l. l ++ p ∷ []) q.order ∙ append_assoc outs q.left (p ∷ []);
          live = λ h.
              ap (λ l. l ++ p ∷ []) (q.live (sym ends.has_receiver ∙ h))
              ∙ append_assoc buf (m.queued c) (p ∷ [])
              ∙ ap (◌++◌ buf) (sym (sent true e));
          deep = ends.depth ∙ q.deep;
          bounded = omega (
            arith,
            ap length (sent true e),
            length-append (m.queued c) (p ∷ []),
            fits (sym (laws.send_admits p c) ∙ e),
            q.deep,
          );
        }
        go false e = record {
          left = q.left;
          order = append-nil ins ∙ q.order;
          live = λ h. q.live (sym ends.has_receiver ∙ h) ∙ ap (◌++◌ buf) (sym (sent false e));
          deep = ends.depth ∙ q.deep;
          bounded = omega (arith, ap length (sent false e), q.bounded);
        }

    -- Packets may move from the channel to the buffer.
    pub IsQueue-moves :
        {d : m.Chan} {buf' : List Packet}
        → SameEnds m c d
        → buf' ++ m.queued d ≡ buf ++ m.queued c
        → length (m.queued d) ≤ length (m.queued c)
        → IsQueue c buf ins outs
        → IsQueue d buf' ins outs
    IsQueue-moves s e l q = record {
      left = q.left;
      order = q.order;
      live = λ h. q.live (sym s.has_receiver ∙ h) ∙ sym e;
      deep = s.depth ∙ q.deep;
      bounded = omega (arith, l, q.bounded);
    }

    -- One packet comes out.
    pub IsQueue-pops :
        {d : m.Chan} {buf' : List Packet} (x : Packet)
        → SameEnds m c d
        → m.has_receiver c ≡ true
        → buf ++ m.queued c ≡ x ∷ (buf' ++ m.queued d)
        → length (m.queued d) ≤ length (m.queued c)
        → IsQueue c buf ins outs
        → IsQueue d buf' ins (outs ++ x ∷ [])
    IsQueue-pops {d} {buf'} x s r e l q = record {
      left = buf' ++ m.queued d;
      order =
          q.order
          ∙ ap (◌++◌ outs) (q.live r ∙ e)
          ∙ sym (append_assoc outs (x ∷ []) (buf' ++ m.queued d));
      live = λ _. refl;
      deep = s.depth ∙ q.deep;
      bounded = omega (arith, l, q.bounded);
    }

    pub IsQueue-drop_sender : IsQueue c buf ins outs → IsQueue (m.drop_sender c) buf ins outs
    IsQueue-drop_sender q = record {
      left = q.left;
      order = q.order;
      live = λ h.
          q.live (sym (laws.sender_receiver c) ∙ h) ∙ ap (◌++◌ buf) (sym (laws.sender_queued c));
      deep = laws.sender_depth c ∙ q.deep;
      bounded = subst (λ l. length l ≤ queue_depth) (sym (laws.sender_queued c)) q.bounded;
    }

    pub IsQueue-drop_receiver : IsQueue c buf ins outs → IsQueue (m.drop_receiver c) buf ins outs
    IsQueue-drop_receiver q = record {
      left = q.left;
      order = q.order;
      live = λ h. cc (laws.receiver_dropped c);
      deep = laws.receiver_depth c ∙ q.deep;
      bounded = subst (λ l. length l ≤ queue_depth) (sym (laws.receiver_queued c)) (omega arith);
    }

  -- What `recv` gives, by the channel.
  module _ (laws : MpscLaws m) where
    recv_empty : (c : m.Chan) → m.queued c ≡ [] → (m.recv c ≡ none) ⊎ (m.recv c ≡ some (none, c))
    recv_empty c f = elim (Bool-cases (m.has_sender c)) [
      | inl g ↦ inl (laws.recv_waits c f ∙ rw g refl)
      | inr g ↦ inr (laws.recv_waits c f ∙ rw g refl)
    ]

    pub recv_some :
        (c d : m.Chan) (p : Packet)
        → m.recv c ≡ some (some p, d)
        → SameEnds m c d × (m.queued c ≡ p ∷ m.queued d)
    recv_some c d p e = go (m.queued c) refl
      where
        go : (l : List Packet) → m.queued c ≡ l → SameEnds m c d × (m.queued c ≡ p ∷ m.queued d)
        go [] f = elim (recv_empty c f) [ inl g ↦ cc (e, g) | inr g ↦ cc (e, g) ]
        go (x ∷ l) f =
            let g = laws.recv_ready c x (ap first f) in
            let here : (m.try_recv c).1 ≡ d = cc (e, g) in
            let rest : m.queued d ≡ l = ap m.queued (sym here) ∙ laws.recv_queued c ∙ ap behind f in
            (subst (SameEnds m c) here (laws.recv_ends c), cc (e, g, f, rest))

    pub recv_ended : (c d : m.Chan) → m.recv c ≡ some (none, d) → c ≡ d
    recv_ended c d e = go (m.queued c) refl
      where
        go : (l : List Packet) → m.queued c ≡ l → c ≡ d
        go [] f = elim (recv_empty c f) [ inl g ↦ cc (e, g) | inr g ↦ cc (e, g) ]
        go (x ∷ l) f = cc (e, laws.recv_ready c x (ap first f))
