-- ===== src/Relay.antt =====
-- src/relay.rs: the two copy loops and `pipe`. The results of the successive reads and writes are the
-- environment's choice and enter as lists; a loop that has used its list up is still waiting. What a
-- failed `write_all` had already written to the upstream is not recorded.
mod Copy
mod Downstream
mod Steady
mod Upstream
mod Session
mod Examples
use smoltcp_socks.Common.{
  ℕ, ◌*◌, ◌==◌, if◌then◌else◌, Bool, true, false, List, [], ◌∷◌, ◌++◌, Bytes, drop, take, Option,
  none, some, is_empty, Result, ok, err, ◌≡◌,
}
use smoltcp_socks.Net.{SocketAddr}
use smoltcp_socks.Netstack.Vconn.{VConn, VConnError, ConnMeta, destination}

abbrev pub relay_buf : ℕ
relay_buf = 32 * 1024

pub data RelayError : Type 0 where
  vconn : VConnError → RelayError
  upstream_read upstream_write zero_write dial_failed : RelayError

-- How a direction stands: it has ended, with success or an error, or it waits for a peer.
pub data Outcome : Type 0 where
  done waiting : Outcome
  failed : RelayError → Outcome

-- The calls on the upstream's write half.
pub data UpstreamOp : Type 0 where
  wrote : Bytes → UpstreamOp
  flush shutdown : UpstreamOp

-- One round of `copy_vconn_to`: what `vconn.read` gives, and whether `write_all` succeeds.
pub record UpRound : Type 0 where
  pub read : Result Bytes VConnError
  pub write_ok : Bool

abbrev pub UpOut : Type 0
UpOut = Outcome × List UpstreamOp

up_chunk : Bytes → Bool → UpOut → UpOut
up_chunk buf true (o, ops) = (o, wrote buf ∷ ops)
up_chunk buf false rest = (failed upstream_write, [])

up_round : Result Bytes VConnError → Bool → UpOut → UpOut
unfolding up_chunk
up_round (err e) write_ok rest = (failed (vconn e), [])
up_round (ok []) write_ok rest = (done, flush ∷ [])
up_round (ok (c ∷ buf)) write_ok rest = up_chunk (c ∷ buf) write_ok rest

pub copy_vconn_to : List UpRound → UpOut
unfolding up_round
copy_vconn_to [] = (waiting, [])
copy_vconn_to (r ∷ rounds) = up_round r.read r.write_ok (copy_vconn_to rounds)

-- One round of `copy_to_vconn`: what `src.read` gives (`none` is an error), and what the calls of
-- `vconn.write` for its bytes give.
pub record DownRound : Type 0 where
  pub read : Option Bytes
  pub writes : List (Result ℕ VConnError)

-- The bytes that the virtual connection has accepted, and whether its write side was closed.
pub record DownOut : Type 0 where
  pub outcome : Outcome
  pub accepted : Bytes
  pub half_closed : Bool

-- `while written < n`, over the slice that is left; the result has what was accepted of it.
pub write_out : Bytes → List (Result ℕ VConnError) → Outcome × Bytes
write_out [] results = (done, [])
write_out (c ∷ s) [] = (waiting, [])
write_out (c ∷ s) (err e ∷ results) = (failed (vconn e), [])
write_out (c ∷ s) (ok w ∷ results) =
    let rest = write_out (drop w (c ∷ s)) results in
    if w == 0 then (failed zero_write, []) else (rest.0, take w (c ∷ s) ++ rest.1)

down_chunk : Outcome × Bytes → DownOut → DownOut
down_chunk (done, accepted) rest = record rest { accepted = accepted ++ rest.accepted }
down_chunk (waiting, accepted) rest = record {
  outcome = waiting;
  accepted = accepted;
  half_closed = false;
}
down_chunk (failed e, accepted) rest = record {
  outcome = failed e;
  accepted = accepted;
  half_closed = false;
}

down_round : Option Bytes → List (Result ℕ VConnError) → DownOut → DownOut
unfolding write_out down_chunk
down_round none writes rest = record {
  outcome = failed upstream_read;
  accepted = [];
  half_closed = false;
}
down_round (some []) writes rest = record { outcome = done; accepted = []; half_closed = true }
down_round (some (c ∷ buf)) writes rest = down_chunk (write_out (c ∷ buf) writes) rest

pub copy_to_vconn : List DownRound → DownOut
unfolding down_round
copy_to_vconn [] = record { outcome = waiting; accepted = []; half_closed = false }
copy_to_vconn (r ∷ rounds) = down_round r.read r.writes (copy_to_vconn rounds)

abbrev has_ended : Outcome → Bool
has_ended waiting = false
has_ended done = true
has_ended (failed e) = true

-- What a relay has done: the destination that it dialled, both directions, and whether it has closed
-- the virtual connection and dropped the upstream.
pub record Piped : Type 0 where
  pub dialled : SocketAddr
  pub up : UpOut
  pub down : DownOut
  pub closed : Bool

-- `tokio::join!` waits for both directions, whatever comes of each. This is what `pipe` comes to:
-- `closed` stands for the end of the join and the call of `close` behind it, whose steps are those of
-- Relay/Session/Steps.antt.
pub pipe : (SocketAddr → Bool) → VConn → List UpRound → List DownRound → Result Piped RelayError
unfolding copy_vconn_to copy_to_vconn
pipe dial v up down =
    if dial (destination v)
    then ok (record {
      dialled = destination v;
      up = copy_vconn_to up;
      down = copy_to_vconn down;
      closed =
          if has_ended (copy_vconn_to up).0 then has_ended (copy_to_vconn down).outcome else false;
    })
    else err dial_failed
