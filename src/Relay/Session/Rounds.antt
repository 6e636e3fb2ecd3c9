-- ===== src/Relay/Session/Rounds.antt =====
-- What a call of src/netstack/actor.rs's `service_io` does to a relay of src/relay.rs.
use smoltcp_socks.Common.{
  ℕ, ◌≡◌, ◌⊎◌, inl, inr, refl, ap, sym, subst, ◌∙◌, List, [], ◌∷◌, ◌++◌, Bytes, Option, none, some,
  Result, ok, err, append-nil,
}
use smoltcp_socks.Netstack.Vconn.{ConnCmd, VConnError, closed}
use smoltcp_socks.Netstack.Socket.{Tcp, TcpLaws}
use smoltcp_socks.Netstack.Conn.{
  PendingRead, PendingWrite, ConnState, Event, write_reply, ReadOut, WriteOut, serve_read,
  serve_write, service_io,
}
use smoltcp_socks.Netstack.Conn.Reads.{ReadStep, serve_read-ReadStep}
use smoltcp_socks.Netstack.Conn.Settled.{serve_read_keeps_send, serve_write_keeps_recv}
use smoltcp_socks.Netstack.Conn.Writes.{waits, WriteStep, serve_write-WriteStep}
use smoltcp_socks.Relay.{relay_buf}
use smoltcp_socks.Relay.Session.{
  awaits_read, awaits_write, Session, deliver, delivers, served, accepted_of,
}
use smoltcp_socks.Relay.Session.Flight.{pending, reads_of, writes_of, IsOrderly, IsServed}
use smoltcp_socks.Relay.Session.Moves.{
  InFlight-at, Move, rests, answers_read, answers_write, Move-IsOrderly, Keeps,
}
use smoltcp_socks.Relay.Session.Answers.{one_read, one_write, deliver_read, deliver_write}

module _ (t : Tcp) where
  -- What one half of `service_io` leaves.
  abbrev after_read : Session t → ConnState → ReadOut t → Session t
  after_read s c (o, socket, l) = record (delivers t l s) {
    conn = some (record c { read = o });
    socket = socket;
  }

  abbrev after_write : Session t → ConnState → WriteOut t → Session t
  after_write s c (o, socket, l) = record (delivers t l s) {
    conn = some (record c { write = o });
    socket = socket;
  }

  -- What can come of a service of a write, of whatever length.
  abbrev WriteComes : PendingWrite → t.Socket → WriteOut t → Type 0
  WriteComes w s x =
      (x ≡ (some w, s, []))
      ⊎ ((r : Result ℕ VConnError) × (s' : t.Socket) × (x ≡ (none, s', write_reply w.reply r ∷ []))
          × IsServed r
          × (t.queued s' ≡ t.queued s ++ accepted_of w.body r))

  write_comes :
      (s : Session t) (c : ConnState) (slice : Bytes) (i : ℕ) (x : WriteOut t)
      → s.conn ≡ some c
      → s.down ≡ awaits_write slice i none
      → c.write ≡ some (record { body = slice; reply = i })
      → writes_of s.commands ≡ []
      → t.unread x.1 ≡ t.unread s.socket
      → WriteComes (record { body = slice; reply = i }) s.socket x
      → Move t s (after_write s c x)
  unfolding delivers
  write_comes s c slice i x at down e alone kept (inl p) =
      subst (λ x. Move t s (after_write s c x)) (sym p)
        (rests (
          ap (λ x. record s { conn = x })
            (ap (λ o. some (record c { write = o })) (sym e) ∙ sym at)))
  write_comes s c slice i x at down e alone kept (inr (r, socket, p, served, u)) =
      subst (λ x. Move t s (after_write s c x)) (sym p)
        (answers_write c slice i r socket at down alone served u
          (ap (λ x. t.unread x.1) (sym p) ∙ kept)
          (ap
            (λ (s : Session t). record s {
              conn = some (record c { write = none });
              socket = socket;
            })
            (deliver_write t s slice i r down)))

  module _ (laws : TcpLaws t) where
    read_comes :
        (s : Session t) (c : ConnState) (i : ℕ) (x : ReadOut t)
        → s.conn ≡ some c
        → s.up ≡ awaits_read i none
        → c.read ≡ some (record { max_len = relay_buf; reply = i })
        → reads_of s.commands ≡ []
        → t.queued x.1 ≡ t.queued s.socket
        → ReadStep t laws (record { max_len = relay_buf; reply = i }) s.socket x
        → Move t s (after_read s c x)
    unfolding ReadStep delivers
    read_comes s c i x at up e alone kept (inl p) =
        subst (λ x. Move t s (after_read s c x)) (sym p)
          (rests (
            ap (λ x. record s { conn = x })
              (ap (λ o. some (record c { read = o })) (sym e) ∙ sym at)))
    read_comes s c i x at up e alone kept (inr (inl (d, socket, p, u))) =
        subst (λ x. Move t s (after_read s c x)) (sym p)
          (answers_read c i (ok d) socket at up alone tt u (ap (λ x. t.queued x.1) (sym p) ∙ kept) (
            ap
              (λ (s : Session t). record s {
                conn = some (record c { read = none });
                socket = socket;
              })
              (deliver_read t s i (ok d) up)))
    read_comes s c i x at up e alone kept (inr (inr (socket, p, u))) =
        subst (λ x. Move t s (after_read s c x)) (sym p)
          (answers_read c i (err closed) socket at up alone tt u
            (ap (λ x. t.queued x.1) (sym p) ∙ kept)
            (ap
              (λ (s : Session t). record s {
                conn = some (record c { read = none });
                socket = socket;
              })
              (deliver_read t s i (err closed) up)))

    read_half :
        (s : Session t) (c : ConnState) (o : Option PendingRead)
        → s.conn ≡ some c
        → c.read ≡ o
        → IsOrderly t s
        → Move t s (after_read s c (serve_read t waits o s.socket))
    unfolding serve_read delivers
    read_half s c none at e h =
        rests (
          ap (λ x. record s { conn = x }) (ap (λ o. some (record c { read = o })) (sym e) ∙ sym at))
    read_half s c (some r) at e h =
        let (i, up, same, rest) =
          one_read r (reads_of s.commands) s.up
            (ap (λ o. pending o ++ reads_of s.commands) (sym e) ∙ (InFlight-at t s c at h).reads) in
        subst (λ r. Move t s (after_read s c (serve_read t waits (some r) s.socket))) (sym same)
          (read_comes s c i _ at up (e ∙ ap some same) rest
            (serve_read_keeps_send t laws waits (some (record { max_len = relay_buf; reply = i }))
              s.socket).queued
            (serve_read-ReadStep t laws (record { max_len = relay_buf; reply = i }) s.socket refl))

    write_fate :
        (slice : Bytes) (i : ℕ) (s : t.Socket)
        → WriteComes
            (record { body = slice; reply = i })
            s
            (serve_write t waits (some (record { body = slice; reply = i })) s)
    unfolding WriteStep serve_write
    write_fate [] i s = inr (ok 0, s, refl, tt, sym (append-nil (t.queued s)))
    write_fate (c ∷ b) i s = elim (serve_write-WriteStep t laws c i b s) [
      | inl e ↦ inl e
      | inr (inl (n, s', e, q, positive)) ↦ inr (ok n, s', e, tt, q)
      | inr (inr (s', e, q)) ↦ inr (err closed, s', e, tt, q ∙ sym (append-nil (t.queued s)))
    ]

    write_half :
        (s : Session t) (c : ConnState) (o : Option PendingWrite)
        → s.conn ≡ some c
        → c.write ≡ o
        → IsOrderly t s
        → Move t s (after_write s c (serve_write t waits o s.socket))
    unfolding serve_write delivers
    write_half s c none at e h =
        rests (
          ap (λ x. record s { conn = x })
            (ap (λ o. some (record c { write = o })) (sym e) ∙ sym at))
    write_half s c (some w) at e h =
        let (slice, i, down, same, rest) =
          one_write w (writes_of s.commands) s.down (
            ap (λ o. pending o ++ writes_of s.commands) (sym e)
            ∙ (InFlight-at t s c at h).writes) in
        subst (λ w. Move t s (after_write s c (serve_write t waits (some w) s.socket))) (sym same)
          (write_comes s c slice i _ at down (e ∙ ap some same) rest
            (serve_write_keeps_recv t laws waits (some (record { body = slice; reply = i }))
              s.socket).unread
            (write_fate slice i s.socket))

  pub delivers-append :
      (k l : List Event) (s : Session t) → delivers t (k ++ l) s ≡ delivers t l (delivers t k s)
  unfolding delivers
  delivers-append [] l s = refl
  delivers-append (e ∷ k) l s = delivers-append k l (deliver t e s)

  -- The replies do not depend on what waits in the channel, nor on the connection's state.
  pub delivers_commands :
      (l : List Event) (s : Session t) (j : List ConnCmd)
      → record (delivers t l s) { commands = j } ≡ delivers t l (record s { commands = j })
  unfolding delivers deliver
  delivers_commands [] s j = refl
  delivers_commands (e ∷ l) s j = delivers_commands l (deliver t e s) j

  pub delivers_beside :
      (l : List Event) (s : Session t) (x y : Option ConnState) (a b : t.Socket)
      → record (delivers t l (record s { conn = x; socket = a })) { conn = y; socket = b }
        ≡ record (delivers t l s) { conn = y; socket = b }
  unfolding delivers deliver
  delivers_beside [] s x y a b = refl
  delivers_beside (e ∷ l) s x y a b = delivers_beside l (deliver t e s) x y a b

  pub delivers_keeps : (l : List Event) (s : Session t) → (delivers t l s).commands ≡ s.commands
  unfolding delivers deliver
  delivers_keeps [] s = refl
  delivers_keeps (e ∷ l) s = delivers_keeps l (deliver t e s)

  module _ (laws : TcpLaws t) where
    pub kept :
        (P : Session t → Type 0)
        → Keeps t P
        → (s u : Session t) → Move t s u
        → IsOrderly t s × P s
        → IsOrderly t u × P u
    kept P keeps s u mv (h, p) = (Move-IsOrderly t s u mv h, keeps s u mv h p)

    pub polls_keep :
        (P : Session t → Type 0) (s : Session t) (c : ConnState)
        → Keeps t P
        → s.conn ≡ some c
        → IsOrderly t s × P s
        → IsOrderly t (served t (service_io t waits c s.socket) s)
          × P (served t (service_io t waits c s.socket) s)
    unfolding served service_io
    polls_keep P s c keeps at h =
        let x = serve_read t waits c.read s.socket in
        let mid = after_read s c x in
        let d : ConnState = record c { read = x.0 } in
        let y = serve_write t waits c.write x.1 in
        let h1 = kept P keeps s mid (read_half laws s c c.read at refl h.0) h in
        let h2 =
          kept P keeps mid (after_write mid d y) (write_half laws mid d c.write refl refl h1.0)
            h1 in
        let last : ConnState = record d { write = y.0 } in
        subst (λ u. IsOrderly t u × P u)
          (delivers_beside y.2 (delivers t x.2 s) (some d) (some last) x.1 y.1
            ∙ ap (λ (u : Session t). record u { conn = some last; socket = y.1 })
                (sym (delivers-append x.2 y.2 s)))
          h2
