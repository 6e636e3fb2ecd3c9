-- ===== src/Relay/Session/Takes.antt =====
-- What src/netstack/actor.rs does with a command of a relay of src/relay.rs.
use smoltcp_socks.Common.{
  ℕ, ◌≡◌, refl, ap, sym, subst, ◌∙◌, Bool, List, [], ◌∷◌, ◌++◌, Bytes, Option, none, some, ok, err,
  if◌then◌else◌, is_some,
}
use smoltcp_socks.Netstack.Vconn.{ConnCmd, read, write, close_write, close, io, would_block}
use smoltcp_socks.Netstack.Socket.{Tcp, TcpLaws}
use smoltcp_socks.Netstack.Conn.{
  PendingRead, PendingWrite, ConnState, read_reply, write_reply, service_io, handle_cmd, round,
}
use smoltcp_socks.Netstack.Conn.Writes.{waits}
use smoltcp_socks.Relay.Session.{Session, delivers, served}
use smoltcp_socks.Relay.Session.Flight.{
  pending, reads_of, writes_of, close_writes_of, closes_of, IsOrderly,
}
use smoltcp_socks.Relay.Session.Moves.{
  InFlight-at, Move, takes_read, takes_write, answers_close_write, answers_close, Keeps,
}
use smoltcp_socks.Relay.Session.Answers.{
  one_read, one_write, one_close_write, one_close, deliver_close_write, deliver_close,
}
use smoltcp_socks.Relay.Session.Rounds.{kept, polls_keep, delivers-append, delivers_beside}

module _ (t : Tcp) where
  handle_read :
      (s : Session t) (c : ConnState) (max_len i : ℕ) (rest : List ConnCmd) (o : Option PendingRead)
      → s.conn ≡ some c
      → s.commands ≡ read max_len i ∷ rest
      → c.read ≡ o
      → IsOrderly t s
      → Move t s
          (served t (handle_cmd t c s.socket (read max_len i)) (record s { commands = rest }))
  unfolding handle_cmd served delivers
  handle_read s c max_len i rest (some r) at head e h =
      let (j, up, same, none_left) =
        one_read r (reads_of s.commands) s.up
          (ap (λ o. pending o ++ reads_of s.commands) (sym e) ∙ (InFlight-at t s c at h).reads) in
      absurd (cc (sym none_left ∙ ap reads_of head))
  handle_read s c max_len i rest none at head e h = takes_read c max_len i rest at head e (
      ap
        (λ (b : Bool).
          served t
            (if b
              then (
                c,
                s.socket,
                read_reply i (err (io (would_block "a read is already pending"))) ∷ [],
              )
              else (
                record c { read = some (record { max_len = max_len; reply = i }) },
                s.socket,
                [],
              ))
            (record s { commands = rest }))
        (ap is_some e))

  handle_write :
      (s : Session t) (c : ConnState) (body : Bytes) (i : ℕ) (rest : List ConnCmd)
      (o : Option PendingWrite)
      → s.conn ≡ some c
      → s.commands ≡ write body i ∷ rest
      → c.write ≡ o
      → IsOrderly t s
      → Move t s (served t (handle_cmd t c s.socket (write body i)) (record s { commands = rest }))
  unfolding handle_cmd served delivers
  handle_write s c body i rest (some w) at head e h =
      let (slice, j, down, same, none_left) =
        one_write w (writes_of s.commands) s.down
          (ap (λ o. pending o ++ writes_of s.commands) (sym e) ∙ (InFlight-at t s c at h).writes) in
      absurd (cc (sym none_left ∙ ap writes_of head))
  handle_write s c body i rest none at head e h = takes_write c body i rest at head e (
      ap
        (λ (b : Bool).
          served t
            (if b
              then (
                c,
                s.socket,
                write_reply i (err (io (would_block "a write is already pending"))) ∷ [],
              )
              else (record c { write = some (record { body = body; reply = i }) }, s.socket, []))
            (record s { commands = rest }))
        (ap is_some e))

  handle :
      (s : Session t) (c : ConnState) (cmd : ConnCmd) (rest : List ConnCmd)
      → s.conn ≡ some c
      → s.commands ≡ cmd ∷ rest
      → IsOrderly t s
      → Move t s (served t (handle_cmd t c s.socket cmd) (record s { commands = rest }))
  unfolding handle_cmd served delivers
  handle s c (read max_len i) rest at head h = handle_read s c max_len i rest c.read at head refl h
  handle s c (write body i) rest at head h = handle_write s c body i rest c.write at head refl h
  handle s c (close_write i) rest at head h =
      let f = InFlight-at t s c at h in
      let (down, alone) =
        one_close_write i (close_writes_of rest) s.down
          (ap close_writes_of (sym head) ∙ f.close_writes) in
      answers_close_write c i rest at head down alone (
        ap (λ (u : Session t). record u { conn = some c; socket = t.close s.socket })
          (deliver_close_write t (record s { commands = rest }) i (ok tt) down h.joined))
  handle s c (close i) rest at head h =
      let f = InFlight-at t s c at h in
      let (stage, alone) =
        one_close i (closes_of rest) s.stage (ap closes_of (sym head) ∙ f.closes) in
      answers_close c i rest at head stage alone (
        ap (λ (u : Session t). record u { conn = some c; socket = t.abort s.socket })
          (deliver_close t (record s { commands = rest }) i (ok tt) stage h.joined))

  module _ (laws : TcpLaws t) where
    pub takes_keep :
        (P : Session t → Type 0) (s : Session t) (c : ConnState) (cmd : ConnCmd)
        (rest : List ConnCmd)
        → Keeps t P
        → s.conn ≡ some c
        → s.commands ≡ cmd ∷ rest
        → IsOrderly t s × P s
        → (let u =
              served t
                (round t c s.socket (record { cmd = cmd; gone = waits }))
                (record s { commands = rest }) in
            IsOrderly t u × P u)
    unfolding round served
    takes_keep P s c cmd rest keeps at head h =
        let x = handle_cmd t c s.socket cmd in
        let low : Session t = record s { commands = rest } in
        let mid = served t x low in
        let y = service_io t waits x.0 x.1 in
        let h1 = kept t laws P keeps s mid (handle s c cmd rest at head h.0) h in
        let h2 = polls_keep t laws P mid x.0 keeps refl h1 in
        subst (λ u. IsOrderly t u × P u)
          (delivers_beside t y.2 (delivers t x.2 low) (some x.0) (some y.0) x.1 y.1
            ∙ ap (λ (u : Session t). record u { conn = some y.0; socket = y.1 })
                (sym (delivers-append t x.2 y.2 low)))
          h2
