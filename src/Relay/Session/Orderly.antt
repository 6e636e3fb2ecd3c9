-- ===== src/Relay/Session/Orderly.antt =====
-- The requests of a relay of src/relay.rs in every order in which the relay, the actor and the network
-- act.
use smoltcp_socks.Common.{
  ℕ, ◌+◌, ◌≤◌, ◌≡◌, refl, ap, List, [], ◌∷◌, Option, none, some, arith, length, length-append,
}
use smoltcp_socks.Netstack.Vconn.{ConnCmd, read, write, close_write, close}
use smoltcp_socks.Netstack.Socket.{Tcp, TcpLaws}
use smoltcp_socks.Netstack.Conn.{ConnState, new}
use smoltcp_socks.Relay.Session.{
  Up, awaits_read, writes_all, up_ended, Down, reads_source, awaits_write, calls_close_write,
  awaits_close_write, down_ended, Stage, dialing, piping, over, awaits_close, Session, opened,
}
use smoltcp_socks.Relay.Session.Steps.{Reach, here, next}
use smoltcp_socks.Relay.Session.Flight.{
  pending, reads_of, writes_of, close_writes_of, closes_of, wanted_read, wanted_write,
  wanted_close_write, wanted_close, IsJoined, Requests, IsOrderly,
}
use smoltcp_socks.Relay.Session.Requests.{ended_reads, ended_writes}
use smoltcp_socks.Relay.Session.Preserved.{Step-IsOrderly}

commands_count :
    (l : List ConnCmd)
    → length l
      ≡ length (reads_of l)
        + length (writes_of l)
        + length (close_writes_of l)
        + length (closes_of l)
commands_count [] = refl
commands_count (read n i ∷ l) = omega (arith, commands_count l)
commands_count (write b i ∷ l) = omega (arith, commands_count l)
commands_count (close_write i ∷ l) = omega (arith, commands_count l)
commands_count (close i ∷ l) = omega (arith, commands_count l)

up_wants_one : (up : Up) → length (wanted_read up) ≤ 1
up_wants_one (awaits_read i none) = omega arith
up_wants_one (awaits_read i (some r)) = omega arith
up_wants_one Up.calls_read = omega arith
up_wants_one (writes_all b) = omega arith
up_wants_one (up_ended b) = omega arith

down_wants_one : (down : Down) → length (wanted_write down) + length (wanted_close_write down) ≤ 1
down_wants_one (awaits_write slice i none) = omega arith
down_wants_one (awaits_write slice i (some r)) = omega arith
down_wants_one (awaits_close_write i none) = omega arith
down_wants_one (awaits_close_write i (some r)) = omega arith
down_wants_one reads_source = omega arith
down_wants_one (Down.calls_write slice) = omega arith
down_wants_one calls_close_write = omega arith
down_wants_one (down_ended b) = omega arith

wants_two :
    (stage : Stage) (up : Up) (down : Down)
    → IsJoined stage up down
    → length (wanted_read up)
        + length (wanted_write down)
        + length (wanted_close_write down)
        + length (wanted_close stage)
      ≤ 2
wants_two (awaits_close i none) up down h =
    let (w, cw) = ended_writes down h.1 in
    omega (arith, ap length (ended_reads up h.0), ap length w, ap length cw)
wants_two (awaits_close i (some r)) up down h = omega (arith, up_wants_one up, down_wants_one down)
wants_two dialing up down h = omega (arith, up_wants_one up, down_wants_one down)
wants_two piping up down h = omega (arith, up_wants_one up, down_wants_one down)
wants_two Stage.calls_close up down h = omega (arith, up_wants_one up, down_wants_one down)
wants_two over up down h = omega (arith, up_wants_one up, down_wants_one down)

few_commands :
    (conn : Option ConnState) (cmds : List ConnCmd) (stage : Stage) (up : Up) (down : Down)
    → Requests conn cmds stage up down
    → IsJoined stage up down
    → length cmds ≤ 2
few_commands none cmds stage up down h j = omega (arith, ap length h)
few_commands (some c) cmds stage up down f j = omega (
  arith,
  commands_count cmds,
  wants_two stage up down j,
  ap length f.reads,
  ap length f.writes,
  ap length f.close_writes,
  ap length f.closes,
  length-append (pending c.read) (reads_of cmds),
  length-append (pending c.write) (writes_of cmds),
)

module _ (t : Tcp) (laws : TcpLaws t) where
  pub Reach-IsOrderly :
      (channel : ℕ) (socket : t.Socket) (s : Session t)
      → Reach t (opened t (new channel) socket) s
      → IsOrderly t s
  unfolding new
  Reach-IsOrderly channel socket _ here = record {
    requests = record { reads = refl; writes = refl; close_writes = refl; closes = refl };
    up_served = tt;
    down_served = tt;
    joined = (refl, refl);
  }
  Reach-IsOrderly channel socket s (next {u} r st) =
      Step-IsOrderly t laws u s st (Reach-IsOrderly channel socket u r)

  -- In every order in which the two copy loops, the actor and the network act: as long as the actor
  -- has the connection, each call of `VConn` that a loop waits in has its request in exactly one
  -- place, the command channel or the pending slot of its kind, until it is answered, and no other
  -- request is there; an answer that waits for a loop is a success or the error `closed`, no other
  -- error; both loops have ended when the relay closes the connection; and at most two commands wait
  -- in the channel, so that a command can always be sent.
  pub relay-IsOrderly :
      (channel : ℕ) (socket : t.Socket) (s : Session t)
      → Reach t (opened t (new channel) socket) s
      → IsOrderly t s × (length s.commands ≤ 2)
  relay-IsOrderly channel socket s r =
      let h = Reach-IsOrderly channel socket s r in
      (h, few_commands s.conn s.commands s.stage s.up s.down h.requests h.joined)
