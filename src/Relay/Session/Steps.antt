-- ===== src/Relay/Session/Steps.antt =====
-- What a relay of src/relay.rs, the actor of src/netstack/actor.rs and the network do, in any order. A
-- step is what one of them does between two waits.
use smoltcp_socks.Common.{
  ℕ, suc, ◌≡◌, if◌then◌else◌, Bool, true, false, List, [], ◌∷◌, ◌++◌, Bytes, Option, none, some,
  Result, length, ltb,
}
use smoltcp_socks.Netstack.Vconn.{ConnCmd, read, write, close_write, close, VConnError}
use smoltcp_socks.Netstack.Socket.{Tcp}
use smoltcp_socks.Netstack.Conn.{ConnState, service_io, round, fail_pending}
use smoltcp_socks.Netstack.Conn.Writes.{waits}
use smoltcp_socks.Relay.{relay_buf}
use smoltcp_socks.Relay.Session.{
  Up, awaits_read, writes_all, up_ended, Down, reads_source, awaits_write, awaits_close_write,
  down_ended, Stage, dialing, piping, over, awaits_close, read_answered, write_answered,
  source_read, bytes_of, accepted_of, outcome, command_depth, Session, delivers, served,
}

module _ (t : Tcp) where
  -- The calls that a relay can make: the command, the relay that waits for the answer, and the relay
  -- if the command cannot be sent.
  pub data Call (s : Session t) (cmd : ConnCmd) (asked failed : Session t) : Type 0 where
    calls_read :
        s.stage ≡ piping
        → s.up ≡ Up.calls_read
        → cmd ≡ read relay_buf s.next_reply
        → asked ≡ record s { up = awaits_read s.next_reply none }
        → failed ≡ record s { up = up_ended false }
        → Call s cmd asked failed
    calls_write :
        (slice : Bytes)
        → s.stage ≡ piping
        → s.down ≡ Down.calls_write slice
        → cmd ≡ write slice s.next_reply
        → asked ≡ record s { down = awaits_write slice s.next_reply none }
        → failed ≡ record s { down = down_ended false }
        → Call s cmd asked failed
    calls_close_write :
        s.stage ≡ piping
        → s.down ≡ Down.calls_close_write
        → cmd ≡ close_write s.next_reply
        → asked ≡ record s { down = awaits_close_write s.next_reply none }
        → failed ≡ record s { down = down_ended true }
        → Call s cmd asked failed
    calls_close :
        s.stage ≡ Stage.calls_close
        → cmd ≡ close s.next_reply
        → asked ≡ record s { stage = awaits_close s.next_reply none }
        → failed ≡ record s { stage = over }
        → Call s cmd asked failed

  pub data Step (s u : Session t) : Type 0 where
    dials :
        (b : Bool)
        → s.stage ≡ dialing
        → u ≡ record s { stage = if b then piping else over }
        → Step s u
    asks :
        (cmd : ConnCmd) (asked failed : Session t) (c : ConnState)
        → Call s cmd asked failed
        → s.conn ≡ some c
        → ltb (length s.commands) command_depth ≡ true
        → u ≡ record asked { commands = s.commands ++ cmd ∷ []; next_reply = suc s.next_reply }
        → Step s u
    call_fails :
        (cmd : ConnCmd) (asked failed : Session t)
        → Call s cmd asked failed
        → s.conn ≡ none
        → u ≡ failed
        → Step s u
    gets_read :
        (i : ℕ) (o : Option (Result Bytes VConnError)) (r : Result Bytes VConnError)
        → s.up ≡ awaits_read i o
        → outcome o s.conn ≡ some r
        → u ≡ record s { up = read_answered r }
        → Step s u
    writes_upstream :
        (buf : Bytes)
        → s.up ≡ writes_all buf
        → u ≡ record s { up = Up.calls_read; carried = s.carried ++ buf }
        → Step s u
    upstream_fails :
        (buf : Bytes) → s.up ≡ writes_all buf → u ≡ record s { up = up_ended false } → Step s u
    reads_upstream :
        (o : Option Bytes)
        → s.stage ≡ piping
        → s.down ≡ reads_source
        → u ≡ record s { down = source_read o; source = s.source ++ bytes_of o }
        → Step s u
    gets_write :
        (slice : Bytes) (i : ℕ) (o : Option (Result ℕ VConnError)) (r : Result ℕ VConnError)
        → s.down ≡ awaits_write slice i o
        → outcome o s.conn ≡ some r
        → u
          ≡ record s { down = write_answered slice r; accepted = s.accepted ++ accepted_of slice r }
        → Step s u
    gets_close_write :
        (i : ℕ) (o : Option (Result (Unit {0}) VConnError)) (r : Result (Unit {0}) VConnError)
        → s.down ≡ awaits_close_write i o
        → outcome o s.conn ≡ some r
        → u ≡ record s { down = down_ended true }
        → Step s u
    joins :
        (a b : Bool)
        → s.stage ≡ piping
        → s.up ≡ up_ended a
        → s.down ≡ down_ended b
        → u ≡ record s { stage = Stage.calls_close }
        → Step s u
    gets_close :
        (i : ℕ) (o : Option (Result (Unit {0}) VConnError)) (r : Result (Unit {0}) VConnError)
        → s.stage ≡ awaits_close i o
        → outcome o s.conn ≡ some r
        → u ≡ record s { stage = over }
        → Step s u
    polls :
        (c : ConnState)
        → s.conn ≡ some c
        → u ≡ served t (service_io t waits c s.socket) s
        → Step s u
    takes :
        (c : ConnState) (cmd : ConnCmd) (rest : List ConnCmd)
        → s.conn ≡ some c
        → s.commands ≡ cmd ∷ rest
        → u
          ≡ served t
              (round t c s.socket (record { cmd = cmd; gone = waits }))
              (record s { commands = rest })
        → Step s u
    drops_conn :
        (c : ConnState)
        → s.conn ≡ some c
        → s.stage ≡ over
        → s.commands ≡ []
        → u ≡ record (delivers t (fail_pending c).1 s) { conn = none; socket = t.abort s.socket }
        → Step s u
    actor_ends : u ≡ record s { conn = none; commands = [] } → Step s u
    network :
        (socket : t.Socket) (new : Bytes)
        → t.unread socket ≡ t.unread s.socket ++ new
        → t.queued socket ≡ t.queued s.socket
        → u ≡ record s { socket = socket; arrived = s.arrived ++ new }
        → Step s u

  pub data Reach (s : Session t) : Session t → Type 0 where
    here : Reach s s
    next : {u v : Session t} → Reach s u → Step u v → Reach s v
