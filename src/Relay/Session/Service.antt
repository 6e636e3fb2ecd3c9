-- ===== src/Relay/Session/Service.antt =====
-- A whole call of src/netstack/actor.rs's `ConnState::service`, on the connection of a relay of
-- src/relay.rs.
use smoltcp_socks.Common.{
  ℕ, ◌≡◌, ◌≢◌, refl, ap, sym, subst, ◌∙◌, true, false, List, [], ◌∷◌, ◌++◌, Option, none, some,
  Bytes, arith, length,
}
use smoltcp_socks.Netstack.Vconn.{ConnCmd}
use smoltcp_socks.Netstack.Socket.{Tcp, TcpLaws}
use smoltcp_socks.Netstack.Conn.{
  ConnState, PendingRead, PendingWrite, Arrival, Out, service_io, round, drain, service, new,
}
use smoltcp_socks.Netstack.Conn.Settled.{Settled, ReadWaits, WriteWaits, last_gone, service_settles}
use smoltcp_socks.Netstack.Conn.Writes.{waits}
use smoltcp_socks.Relay.{relay_buf}
use smoltcp_socks.Relay.Session.{
  awaits_read, awaits_write, awaits_close_write, awaits_close, Session, opened, delivers, served,
}
use smoltcp_socks.Relay.Session.Steps.{Reach, next, polls, takes}
use smoltcp_socks.Relay.Session.Flight.{
  pending, wanted_read, wanted_write, wanted_close_write, wanted_close, IsInFlight,
}
use smoltcp_socks.Relay.Session.Moves.{InFlight-at}
use smoltcp_socks.Relay.Session.Orderly.{Reach-IsOrderly}
use smoltcp_socks.Relay.Session.Rounds.{
  delivers-append, delivers_beside, delivers_commands, delivers_keeps,
}

abbrev pub arrivals : List ConnCmd → List Arrival
arrivals [] = []
arrivals (cmd ∷ l) = record { cmd = cmd; gone = waits } ∷ arrivals l

arrivals_wait : (l : List ConnCmd) → last_gone waits (arrivals l) ≡ waits
arrivals_wait [] = refl
arrivals_wait (cmd ∷ l) = arrivals_wait l

module _ (t : Tcp) where
  -- The relay after a service that finds what waits in the channel.
  abbrev pub serviced : ConnState → Session t → Session t
  serviced c s =
      served t (service t waits (arrivals s.commands) c s.socket) (record s { commands = [] })

  -- Serving a command and then the others is serving them all.
  served_on :
      (x y : Out t) (s : Session t) (rest : List ConnCmd)
      → served t y (record (served t x (record s { commands = rest })) { commands = [] })
        ≡ served t (y.0, y.1, x.2 ++ y.2) (record s { commands = [] })
  unfolding served
  served_on x y s rest =
      let out = λ (u : Session t). record (delivers t y.2 u) { conn = some y.0; socket = y.1 } in
      delivers_beside t y.2
        (record (delivers t x.2 (record s { commands = rest })) { commands = [] }) (some x.0)
        (some y.0) x.1 y.1
      ∙ ap out (delivers_commands t x.2 (record s { commands = rest }) [])
      ∙ ap (λ (u : Session t). record u { conn = some y.0; socket = y.1 })
          (sym (delivers-append t x.2 y.2 (record s { commands = [] })))

  drain-Reach :
      (s0 : Session t) (l : List ConnCmd) (s : Session t) (c : ConnState)
      → s.conn ≡ some c
      → s.commands ≡ l
      → Reach t s0 s
      → Reach t s0 (served t (drain t c s.socket (arrivals l)) (record s { commands = [] }))
  unfolding drain served delivers
  drain-Reach s0 [] s c at empty r =
      subst (Reach t s0) (λ k. record s { conn = at k; commands = empty k }) r
  drain-Reach s0 (cmd ∷ rest) s c at head r =
      let x = round t c s.socket (record { cmd = cmd; gone = waits }) in
      let u = served t x (record s { commands = rest }) in
      let y = drain t x.0 x.1 (arrivals rest) in
      subst (Reach t s0) (served_on x y s rest) (
        drain-Reach s0 rest u x.0 refl (delivers_keeps t x.2 (record s { commands = rest }))
          (next r (takes c cmd rest at head refl)))

  -- The call as a run of steps.
  service-Reach :
      (s0 s : Session t) (c : ConnState)
      → s.conn ≡ some c
      → Reach t s0 s
      → Reach t s0 (serviced c s)
  unfolding service served
  service-Reach s0 s c at r =
      let x = service_io t waits c s.socket in
      let u = served t x s in
      subst (Reach t s0) (served_on x (drain t x.0 x.1 (arrivals s.commands)) s s.commands)
        (drain-Reach s0 s.commands u x.0 refl (delivers_keeps t x.2 s) (next r (polls c at refl)))

  -- What each call that waits for an answer waits for.
  pub record IsAnswered (s : Session t) : Type 0 where
    pub reads :
        (i : ℕ)
        → s.up ≡ awaits_read i none
        → (t.can_recv s.socket ≡ false) × (t.may_recv s.socket ≡ true)
    pub writes :
        (slice : Bytes) (i : ℕ)
        → s.down ≡ awaits_write slice i none
        → (slice ≢ []) × (t.can_send s.socket ≡ false) × (t.may_send s.socket ≡ true)
    pub close_writes : (i : ℕ) → s.down ≢ awaits_close_write i none
    pub closes : (i : ℕ) → s.stage ≢ awaits_close i none

  read_waits :
      (o : Option PendingRead) (sk : t.Socket) (i : ℕ)
      → pending o ++ [] ≡ record { max_len = relay_buf; reply = i } ∷ []
      → ReadWaits t waits o sk
      → (t.can_recv sk ≡ false) × (t.may_recv sk ≡ true)
  read_waits none sk i e h = absurd (cc e)
  read_waits (some r) sk i e h = (h.2, h.3)

  write_waits :
      (o : Option PendingWrite) (sk : t.Socket) (slice : Bytes) (i : ℕ)
      → pending o ++ [] ≡ record { body = slice; reply = i } ∷ []
      → WriteWaits t waits o sk
      → (slice ≢ []) × (t.can_send sk ≡ false) × (t.may_send sk ≡ true)
  write_waits none sk slice i e h = absurd (cc e)
  write_waits (some w) sk slice i e h =
      let same : w.body ≡ slice = cc e in
      (λ none_left. absurd (omega (arith, h.1, ap length (same ∙ none_left))), h.2, h.3)

  Settled-IsAnswered :
      (s : Session t) (c : ConnState)
      → IsInFlight c [] s.stage s.up s.down
      → Settled t waits c s.socket
      → IsAnswered s
  Settled-IsAnswered s c f h = record {
    reads = λ i up. read_waits c.read s.socket i (f.reads ∙ ap wanted_read up) h.reads;
    writes = λ slice i down.
        write_waits c.write s.socket slice i (f.writes ∙ ap wanted_write down) h.writes;
    close_writes = λ i down. cc (f.close_writes ∙ ap wanted_close_write down);
    closes = λ i stage. cc (f.closes ∙ ap wanted_close stage);
  }

module _ (t : Tcp) (laws : TcpLaws t) where
  -- A call of `service`, from whatever state the relay and the network have come to, is a run of
  -- their steps, and it answers every call of the relay that can be answered: behind it a read waits
  -- only while the socket has no bytes and more may come, a write only with bytes to write and while
  -- the socket has no room and may still send, and no close or half-close waits.
  pub service-IsAnswered :
      (channel : ℕ) (socket : t.Socket) (s : Session t) (c : ConnState)
      → Reach t (opened t (new channel) socket) s
      → s.conn ≡ some c
      → Reach t (opened t (new channel) socket) (serviced t c s) × IsAnswered t (serviced t c s)
  unfolding served
  service-IsAnswered channel socket s c r at =
      let r' = service-Reach t (opened t (new channel) socket) s c at r in
      let x = service t waits (arrivals s.commands) c s.socket in
      let u = serviced t c s in
      let f = InFlight-at t u x.0 refl (Reach-IsOrderly t laws channel socket u r') in
      (
        r',
        Settled-IsAnswered t u x.0
            (subst (λ l. IsInFlight x.0 l u.stage u.up u.down)
              (delivers_keeps t x.2 (record s { commands = [] })) f)
            (subst (λ g. Settled t g x.0 x.1) (arrivals_wait s.commands)
              (service_settles t laws waits (arrivals s.commands) c s.socket)),
      )
