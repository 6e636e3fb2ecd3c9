-- ===== src/Relay/Session/Flight.antt =====
-- Where the requests of a relay of src/relay.rs are: in the command channel or pending in the actor's
-- `ConnState`.
use smoltcp_socks.Common.{
  ℕ, ◌≡◌, ◌⊎◌, Bool, true, false, List, [], ◌∷◌, ◌++◌, Bytes, Option, none, some, Result, ok, err,
}
use smoltcp_socks.Netstack.Vconn.{
  ConnCmd, read, write, close_write, close, VConnError, closed, reset, actor_gone, io,
}
use smoltcp_socks.Netstack.Socket.{Tcp}
use smoltcp_socks.Netstack.Conn.{PendingRead, PendingWrite, ConnState}
use smoltcp_socks.Relay.{relay_buf}
use smoltcp_socks.Relay.Session.{
  Up, calls_read, awaits_read, writes_all, up_ended, Down, reads_source, calls_write, awaits_write,
  calls_close_write, awaits_close_write, down_ended, Stage, dialing, piping, calls_close, over,
  awaits_close, Session,
}

abbrev pub pending {ℓ} : {A : Type ℓ} → Option A → List A
pending none = []
pending (some a) = a ∷ []

-- The requests of each kind in the command channel.
abbrev pub reads_of : List ConnCmd → List PendingRead
reads_of [] = []
reads_of (read max_len i ∷ l) = record { max_len = max_len; reply = i } ∷ reads_of l
reads_of (write body i ∷ l) = reads_of l
reads_of (close_write i ∷ l) = reads_of l
reads_of (close i ∷ l) = reads_of l

abbrev pub writes_of : List ConnCmd → List PendingWrite
writes_of [] = []
writes_of (read max_len i ∷ l) = writes_of l
writes_of (write body i ∷ l) = record { body = body; reply = i } ∷ writes_of l
writes_of (close_write i ∷ l) = writes_of l
writes_of (close i ∷ l) = writes_of l

abbrev pub close_writes_of : List ConnCmd → List ℕ
close_writes_of [] = []
close_writes_of (read max_len i ∷ l) = close_writes_of l
close_writes_of (write body i ∷ l) = close_writes_of l
close_writes_of (close_write i ∷ l) = i ∷ close_writes_of l
close_writes_of (close i ∷ l) = close_writes_of l

abbrev pub closes_of : List ConnCmd → List ℕ
closes_of [] = []
closes_of (read max_len i ∷ l) = closes_of l
closes_of (write body i ∷ l) = closes_of l
closes_of (close_write i ∷ l) = closes_of l
closes_of (close i ∷ l) = i ∷ closes_of l

-- The requests of each kind whose answers the relay waits for.
abbrev pub wanted_read : Up → List PendingRead
wanted_read (awaits_read i none) = record { max_len = relay_buf; reply = i } ∷ []
wanted_read (awaits_read i (some r)) = []
wanted_read calls_read = []
wanted_read (writes_all b) = []
wanted_read (up_ended b) = []

abbrev pub wanted_write : Down → List PendingWrite
wanted_write (awaits_write slice i none) = record { body = slice; reply = i } ∷ []
wanted_write (awaits_write slice i (some r)) = []
wanted_write reads_source = []
wanted_write (calls_write slice) = []
wanted_write calls_close_write = []
wanted_write (awaits_close_write i o) = []
wanted_write (down_ended b) = []

abbrev pub wanted_close_write : Down → List ℕ
wanted_close_write (awaits_close_write i none) = i ∷ []
wanted_close_write (awaits_close_write i (some r)) = []
wanted_close_write reads_source = []
wanted_close_write (calls_write slice) = []
wanted_close_write calls_close_write = []
wanted_close_write (awaits_write slice i o) = []
wanted_close_write (down_ended b) = []

abbrev pub wanted_close : Stage → List ℕ
wanted_close (awaits_close i none) = i ∷ []
wanted_close (awaits_close i (some r)) = []
wanted_close dialing = []
wanted_close piping = []
wanted_close calls_close = []
wanted_close over = []

-- The actor answers with a success, or says that the connection is closed; it never says that a
-- request of the same kind is already pending.
abbrev pub IsServed {ℓ} : {A : Type ℓ} → Result A VConnError → Type 0
IsServed (ok a) = Unit
IsServed (err closed) = Unit
IsServed (err reset) = ⊥
IsServed (err actor_gone) = ⊥
IsServed (err (io e)) = ⊥

abbrev pub IsUpServed : Up → Type 0
IsUpServed (awaits_read i (some r)) = IsServed r
IsUpServed (awaits_read i none) = Unit
IsUpServed calls_read = Unit
IsUpServed (writes_all b) = Unit
IsUpServed (up_ended b) = Unit

abbrev pub IsDownServed : Down → Type 0
IsDownServed (awaits_write slice i (some r)) = IsServed r
IsDownServed (awaits_write slice i none) = Unit
IsDownServed reads_source = Unit
IsDownServed (calls_write slice) = Unit
IsDownServed calls_close_write = Unit
IsDownServed (awaits_close_write i (some r)) = IsServed r
IsDownServed (awaits_close_write i none) = Unit
IsDownServed (down_ended b) = Unit

abbrev pub has_ended_up : Up → Bool
has_ended_up (up_ended b) = true
has_ended_up calls_read = false
has_ended_up (awaits_read i o) = false
has_ended_up (writes_all b) = false

abbrev pub has_ended_down : Down → Bool
has_ended_down (down_ended b) = true
has_ended_down reads_source = false
has_ended_down (calls_write slice) = false
has_ended_down (awaits_write slice i o) = false
has_ended_down calls_close_write = false
has_ended_down (awaits_close_write i o) = false

-- The loops run between the dial and the close, which waits for both.
abbrev pub IsJoined : Stage → Up → Down → Type 0
IsJoined dialing up down = (up ≡ calls_read) × (down ≡ reads_source)
IsJoined piping up down = Unit
IsJoined calls_close up down = (has_ended_up up ≡ true) × (has_ended_down down ≡ true)
IsJoined (awaits_close i o) up down = (has_ended_up up ≡ true) × (has_ended_down down ≡ true)
IsJoined over up down =
    ((up ≡ calls_read) × (down ≡ reads_source))
    ⊎ ((has_ended_up up ≡ true) × (has_ended_down down ≡ true))

-- Each request whose answer the relay waits for is in one place: pending, or in the channel.
pub record IsInFlight (c : ConnState) (cmds : List ConnCmd) (stage : Stage) (up : Up) (down : Down)
    : Type 0 where
  pub reads : pending c.read ++ reads_of cmds ≡ wanted_read up
  pub writes : pending c.write ++ writes_of cmds ≡ wanted_write down
  pub close_writes : close_writes_of cmds ≡ wanted_close_write down
  pub closes : closes_of cmds ≡ wanted_close stage

abbrev pub Requests : Option ConnState → List ConnCmd → Stage → Up → Down → Type 0
Requests none cmds stage up down = cmds ≡ []
Requests (some c) cmds stage up down = IsInFlight c cmds stage up down

abbrev pub got : Result Bytes VConnError → Bytes
got (ok b) = b
got (err e) = []

module _ (t : Tcp) where
  pub record IsOrderly (s : Session t) : Type 0 where
    pub requests : Requests s.conn s.commands s.stage s.up s.down
    pub up_served : IsUpServed s.up
    pub down_served : IsDownServed s.down
    pub joined : IsJoined s.stage s.up s.down
