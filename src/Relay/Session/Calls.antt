-- ===== src/Relay/Session/Calls.antt =====
-- That a call of src/netstack/vconn.rs keeps the requests of a relay of src/relay.rs in order.
use smoltcp_socks.Common.{ℕ, suc, ◌≡◌, ap, sym, subst, [], ◌∷◌, ◌++◌, Bytes, none, some, append-nil}
use smoltcp_socks.Netstack.Vconn.{ConnCmd, read, write, close_write, close}
use smoltcp_socks.Netstack.Socket.{Tcp}
use smoltcp_socks.Netstack.Conn.{ConnState}
use smoltcp_socks.Relay.Session.{
  Up, awaits_read, Down, awaits_write, awaits_close_write, Stage, awaits_close, Session,
}
use smoltcp_socks.Relay.Session.Steps.{Call}
use smoltcp_socks.Relay.{relay_buf}
use smoltcp_socks.Relay.Session.Flight.{
  reads_of, writes_of, close_writes_of, closes_of, wanted_read, wanted_write, wanted_close_write,
  wanted_close, IsUpServed, IsDownServed, IsJoined, Requests, IsOrderly,
}
use smoltcp_socks.Relay.Session.Moves.{InFlight-at}
use smoltcp_socks.Relay.Session.Requests.{one_more, rewanted}

module _ (t : Tcp) where
  -- What the relay does between two waits.
  pub relayed :
      (s : Session t) (stage' : Stage) (up' : Up) (down' : Down) (carried source accepted : Bytes)
      → ((c : ConnState)
          → s.conn ≡ some c
          → (wanted_read s.up ≡ wanted_read up')
            × (wanted_write s.down ≡ wanted_write down')
            × (wanted_close_write s.down ≡ wanted_close_write down')
            × (wanted_close s.stage ≡ wanted_close stage'))
      → IsUpServed up'
      → IsDownServed down'
      → IsJoined stage' up' down'
      → IsOrderly t s
      → IsOrderly t (record s {
        stage = stage';
        up = up';
        down = down';
        carried = carried;
        source = source;
        accepted = accepted;
      })
  relayed s stage' up' down' carried source accepted same up_served down_served joined h = record {
    requests = rewanted s.conn s.commands s.stage stage' s.up up' s.down down' same h.requests;
    up_served = up_served;
    down_served = down_served;
    joined = joined;
  }

  -- A command goes into the channel.
  asked :
      (s : Session t) (c : ConnState) (cmd : ConnCmd) (stage' : Stage) (up' : Up) (down' : Down)
      (n : ℕ)
      → s.conn ≡ some c
      → wanted_read s.up ++ reads_of (cmd ∷ []) ≡ wanted_read up'
      → wanted_write s.down ++ writes_of (cmd ∷ []) ≡ wanted_write down'
      → wanted_close_write s.down ++ close_writes_of (cmd ∷ []) ≡ wanted_close_write down'
      → wanted_close s.stage ++ closes_of (cmd ∷ []) ≡ wanted_close stage'
      → IsUpServed up'
      → IsDownServed down'
      → IsJoined stage' up' down'
      → IsOrderly t s
      → IsOrderly t (record s {
        stage = stage';
        up = up';
        down = down';
        commands = s.commands ++ cmd ∷ [];
        next_reply = n;
      })
  asked s c cmd stage' up' down' n at r w cw cl up_served down_served joined h = record {
    requests =
        subst (λ o. Requests o (s.commands ++ cmd ∷ []) stage' up' down') (sym at)
          (one_more c s.commands cmd s.stage stage' s.up up' s.down down' (InFlight-at t s c at h) r
            w cw cl);
    up_served = up_served;
    down_served = down_served;
    joined = joined;
  }

  -- A relay that waits for an answer, with its command sent.
  sent :
      (s a b : Session t) (cmd cmd' : ConnCmd)
      → a ≡ b
      → cmd ≡ cmd'
      → IsOrderly t (record b { commands = s.commands ++ cmd' ∷ []; next_reply = suc s.next_reply })
      → IsOrderly t (record a { commands = s.commands ++ cmd ∷ []; next_reply = suc s.next_reply })
  sent s a b cmd cmd' to e h =
      subst (IsOrderly t)
        (sym
          (λ k. record (to k) { commands = s.commands ++ e k ∷ []; next_reply = suc s.next_reply }))
        h

  pub Call-IsOrderly :
      (s : Session t) (cmd : ConnCmd) (a f : Session t) (c : ConnState)
      → Call t s cmd a f
      → s.conn ≡ some c
      → IsOrderly t s
      → IsOrderly t (record a { commands = s.commands ++ cmd ∷ []; next_reply = suc s.next_reply })
  Call-IsOrderly s cmd a f c (Call.calls_read on up e to fails) at h =
      let n = s.next_reply in
      sent s a _ cmd _ to e (
        asked s c (read relay_buf n) s.stage (awaits_read n none) s.down (suc n) at
          (ap (λ up. wanted_read up ++ record { max_len = relay_buf; reply = n } ∷ []) up)
          (append-nil (wanted_write s.down)) (append-nil (wanted_close_write s.down))
          (append-nil (wanted_close s.stage)) tt h.down_served
          (subst (λ g. IsJoined g (awaits_read n none) s.down) (sym on) tt) h)
  Call-IsOrderly s cmd a f c (Call.calls_write slice on down e to fails) at h =
      let n = s.next_reply in
      sent s a _ cmd _ to e (
        asked s c (write slice n) s.stage s.up (awaits_write slice n none) (suc n) at
          (append-nil (wanted_read s.up))
          (ap (λ d. wanted_write d ++ record { body = slice; reply = n } ∷ []) down)
          (ap (λ d. wanted_close_write d ++ []) down) (append-nil (wanted_close s.stage))
          h.up_served tt (subst (λ g. IsJoined g s.up (awaits_write slice n none)) (sym on) tt) h)
  Call-IsOrderly s cmd a f c (Call.calls_close_write on down e to fails) at h =
      let n = s.next_reply in
      sent s a _ cmd _ to e (
        asked s c (close_write n) s.stage s.up (awaits_close_write n none) (suc n) at
          (append-nil (wanted_read s.up)) (ap (λ d. wanted_write d ++ []) down)
          (ap (λ d. wanted_close_write d ++ n ∷ []) down) (append-nil (wanted_close s.stage))
          h.up_served tt (subst (λ g. IsJoined g s.up (awaits_close_write n none)) (sym on) tt) h)
  Call-IsOrderly s cmd a f c (Call.calls_close stage e to fails) at h =
      let n = s.next_reply in
      sent s a _ cmd _ to e (
        asked s c (close n) (awaits_close n none) s.up s.down (suc n) at
          (append-nil (wanted_read s.up)) (append-nil (wanted_write s.down))
          (append-nil (wanted_close_write s.down)) (ap (λ g. wanted_close g ++ n ∷ []) stage)
          h.up_served h.down_served (subst (λ g. IsJoined g s.up s.down) stage h.joined) h)
