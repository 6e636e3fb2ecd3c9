-- ===== src/Relay/Session.antt =====
-- One relay of src/relay.rs and its connection in src/netstack/actor.rs, side by side: where the two
-- copy loops and `pipe` stand, the calls of `VConn` (src/netstack/vconn.rs) that they wait for, the
-- command channel, and what a round of the actor leaves. A call holds the receiver of its reply until
-- the answer is there, so that the actor never finds a reply channel closed.
pub mod Steps
pub mod Flight
pub mod Moves
pub mod Answers
pub mod Rounds
pub mod Takes
pub mod Requests
pub mod Calls
pub mod Preserved
pub mod Orderly
pub mod Streams
pub mod Loops
pub mod Delivery
mod Service
pub mod Trace
mod Upward
pub mod Partial
pub mod DownRun
mod Downward
mod Copies
mod Examples
use smoltcp_socks.Common.{
  ℕ, suc, ◌≡◌, ◌==◌, if◌then◌else◌, Bool, true, false, List, [], ◌∷◌, ◌++◌, Bytes, drop, take,
  Option, none, some, Result, ok, err, length, ltb,
}
use smoltcp_socks.Netstack.Vconn.{ConnCmd, read, write, close_write, close, VConnError, actor_gone}
use smoltcp_socks.Netstack.Socket.{Tcp}
use smoltcp_socks.Netstack.Conn.{
  ConnState, Event, read_reply, write_reply, close_reply, dropped, Out, service_io, round,
  fail_pending,
}
use smoltcp_socks.Netstack.Conn.Writes.{waits}
use smoltcp_socks.Relay.{relay_buf}

-- The capacity of the command channel.
abbrev pub command_depth : ℕ
command_depth = 32

-- Where `copy_vconn_to` stands. A call that waits has the name of its reply channel and what has
-- come on it; `up_ended` says whether the loop ended with success.
pub data Up : Type 0 where
  calls_read : Up
  awaits_read : (reply : ℕ) (answer : Option (Result Bytes VConnError)) → Up
  writes_all : (buf : Bytes) → Up
  up_ended : Bool → Up

-- Where `copy_to_vconn` stands, with the slice that is still to be written.
pub data Down : Type 0 where
  reads_source : Down
  calls_write : (slice : Bytes) → Down
  awaits_write : (slice : Bytes) (reply : ℕ) (answer : Option (Result ℕ VConnError)) → Down
  calls_close_write : Down
  awaits_close_write : (reply : ℕ) (answer : Option (Result (Unit {0}) VConnError)) → Down
  down_ended : Bool → Down

-- Where `pipe` stands. After `over` its `VConn` is gone.
pub data Stage : Type 0 where
  dialing piping calls_close over : Stage
  awaits_close : (reply : ℕ) (answer : Option (Result (Unit {0}) VConnError)) → Stage

-- What each loop does with an answer, and the downward one with a read of the upstream.
pub read_answered : Result Bytes VConnError → Up
read_answered (err e) = up_ended false
read_answered (ok []) = up_ended true
read_answered (ok (c ∷ b)) = writes_all (c ∷ b)

slice_left : Bytes → Down
slice_left [] = reads_source
slice_left (c ∷ s) = calls_write (c ∷ s)

pub write_answered : Bytes → Result ℕ VConnError → Down
unfolding slice_left
write_answered slice (err e) = down_ended false
write_answered slice (ok w) = if w == 0 then down_ended false else slice_left (drop w slice)

abbrev pub accepted_of : Bytes → Result ℕ VConnError → Bytes
accepted_of slice (err e) = []
accepted_of slice (ok w) = take w slice

pub source_read : Option Bytes → Down
source_read none = down_ended false
source_read (some []) = calls_close_write
source_read (some (c ∷ b)) = calls_write (c ∷ b)

abbrev pub bytes_of : Option Bytes → Bytes
bytes_of none = []
bytes_of (some b) = b

-- An answer goes to the call that waits on its reply channel.
pub route_up : Event → Up → Up
route_up (read_reply i r) (awaits_read j none) =
    if i == j then awaits_read j (some r) else awaits_read j none
route_up e u = u

pub route_down : Event → Down → Down
route_down (write_reply i r) (awaits_write slice j none) =
    if i == j then awaits_write slice j (some r) else awaits_write slice j none
route_down (close_reply i r) (awaits_close_write j none) =
    if i == j then awaits_close_write j (some r) else awaits_close_write j none
route_down e d = d

pub route_stage : Event → Stage → Stage
route_stage (close_reply i r) (awaits_close j none) =
    if i == j then awaits_close j (some r) else awaits_close j none
route_stage e s = s

-- What a call gives: the answer that has come, or `ActorGone` if its sender is dropped.
abbrev pub outcome {ℓ} :
    {A : Type ℓ} → Option (Result A VConnError) → Option ConnState → Option (Result A VConnError)
outcome (some r) conn = some r
outcome none none = some (err actor_gone)
outcome none (some c) = none

module _ (t : Tcp) where
  -- `conn` is `none` once the actor has ended or has dropped the connection. What passed through is
  -- kept for the statements: the bytes that have come from the client, those written to the upstream,
  -- those read from it, and those of them that calls of `write` have accepted.
  pub record Session : Type 0 where
    pub stage : Stage
    pub up : Up
    pub down : Down
    pub commands : List ConnCmd
    pub next_reply : ℕ
    pub conn : Option ConnState
    pub socket : t.Socket
    pub arrived : Bytes
    pub carried : Bytes
    pub source : Bytes
    pub accepted : Bytes

  -- The relay as the dispatcher starts it, when the actor has just accepted the connection.
  abbrev pub opened : ConnState → t.Socket → Session
  opened c socket = record {
    stage = dialing;
    up = calls_read;
    down = reads_source;
    commands = [];
    next_reply = 0;
    conn = some c;
    socket = socket;
    arrived = t.unread socket;
    carried = [];
    source = [];
    accepted = [];
  }

  pub deliver : Event → Session → Session
  unfolding route_up route_down route_stage
  deliver e s = record s {
    stage = route_stage e s.stage;
    up = route_up e s.up;
    down = route_down e s.down;
  }

  pub delivers : List Event → Session → Session
  unfolding deliver
  delivers [] s = s
  delivers (e ∷ l) s = delivers l (deliver e s)

  -- What a round of the actor leaves.
  pub served : Out t → Session → Session
  unfolding delivers
  served (c, socket, l) s = record (delivers l s) { conn = some c; socket = socket }
