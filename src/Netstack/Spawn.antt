-- ===== src/Netstack/Spawn.antt =====
-- src/netstack/actor.rs's `spawn`: the actor, the dispatcher and the relays as tasks that run side by
-- side, with the channels between them. A step is what one task does between two of its waits. The
-- actor does not wait inside a turn, so its sends are one step here. On another thread the dispatcher
-- can take connections between two sends of one turn, which makes room earlier than a step here says;
-- how much room a turn finds is all that this changes.
pub mod Safety
pub mod Stopping
pub mod Examples
use smoltcp_socks.Common.{
  ℕ, zero, suc, ◌+◌, ◌-◌, ◌≡◌, Bool, true, false, not, ◌||◌, List, [], ◌∷◌, ◌++◌, Option, none,
  some, ltb, length, if◌then◌else◌,
}
use smoltcp_socks.Netstack.Vconn.{VConn, ConnMeta}
use smoltcp_socks.Netstack.Socket.{Tcp, SocketSet}
use smoltcp_socks.Netstack.Actor.{Actor, with_channels}
use smoltcp_socks.Netstack.Run.{Round, Trace, turn}
use smoltcp_socks.Netstack.Run.Safety.{IsRound}

-- The capacities of the two channels.
abbrev pub accepted_depth : ℕ
accepted_depth = 64

abbrev pub stop_depth : ℕ
stop_depth = 1

abbrev pub Accepted : Type 0
Accepted = VConn × ConnMeta

-- `NetstackHandle`, by the messages in its channel and whether it still exists.
pub record NetstackHandle : Type 0 where
  pub sent : ℕ
  pub held : Bool

-- `NetstackHandle::stop`: the send waits for room, and fails if the actor has ended, which is ignored.
unfoldable pub stop : Bool → NetstackHandle → Option NetstackHandle
stop running h =
    if not running
    then some h
    else if ltb h.sent stop_depth
    then some (record h { sent = suc h.sent })
    else none

-- `stop.recv()` is ready: there is a message, or no handle can send one.
abbrev pub can_stop : NetstackHandle → Bool
can_stop h = ltb 0 h.sent || not h.held

module _ (t : Tcp) (ss : SocketSet t) where
  -- `actor` is `none` once its task has ended; `accepted` is the channel to the dispatcher, and
  -- `relays` are the relay tasks that the dispatcher has started, in order.
  pub record System : Type 0 where
    pub actor : Option (Actor t ss)
    pub accepted : List Accepted
    pub dispatching : Bool
    pub relays : List Accepted
    pub handle : NetstackHandle

  unfoldable pub running : Option (Actor t ss) → Bool
  running none = false
  running (some a) = true

  started : Option (Actor t ss) → Option System
  started none = none
  started (some a) = some (record {
    actor = some a;
    accepted = [];
    dispatching = true;
    relays = [];
    handle = record { sent = 0; held = true };
  })

  unfoldable pub spawn : Option System
  unfolding started
  spawn = started (with_channels t ss)

  -- Each attempt of `try_accept` makes the next channel, and `try_send` succeeds while there is room.
  abbrev pub room : List Accepted → Actor t ss → ℕ → Bool
  room queue a channel = ltb channel (a.next_channel + (accepted_depth - length queue))

  -- A turn of the actor, with the room that the channel has.
  unfoldable pub turn_of :
      Round t ss → List Accepted → Actor t ss → Option (Actor t ss × Trace t ss)
  turn_of r queue a = turn t ss (record r { admits = room queue a }) a

  -- What happens: `sent` is what the actor sends to the dispatcher.
  pub data Step (s u : System) (sent : List Accepted) : Type 0 where
    goes_on :
        (r : Round t ss) (a b : Actor t ss) (x : Trace t ss)
        → IsRound t ss r
        → s.actor ≡ some a
        → turn_of r s.accepted a ≡ some (b, x)
        → sent ≡ x.accepted
        → u ≡ record s { actor = some b; accepted = s.accepted ++ x.accepted }
        → Step s u sent
    stops :
        (r : Round t ss) (a b : Actor t ss) (x : Trace t ss)
        → IsRound t ss r
        → s.actor ≡ some a
        → turn_of r s.accepted a ≡ some (b, x)
        → can_stop s.handle ≡ true
        → sent ≡ x.accepted
        → u ≡ record s { actor = none; accepted = s.accepted ++ x.accepted }
        → Step s u sent
    panics :
        (r : Round t ss) (a : Actor t ss)
        → IsRound t ss r
        → s.actor ≡ some a
        → turn_of r s.accepted a ≡ none
        → sent ≡ []
        → u ≡ record s { actor = none }
        → Step s u sent
    relays_one :
        (p : Accepted) (queue : List Accepted)
        → s.dispatching ≡ true
        → s.accepted ≡ p ∷ queue
        → sent ≡ []
        → u ≡ record s { accepted = queue; relays = s.relays ++ p ∷ [] }
        → Step s u sent
    dispatcher_ends :
        s.dispatching ≡ true
        → s.accepted ≡ []
        → s.actor ≡ none
        → sent ≡ []
        → u ≡ record s { dispatching = false }
        → Step s u sent
    asks_to_stop :
        (h : NetstackHandle)
        → s.handle.held ≡ true
        → stop (running s.actor) s.handle ≡ some h
        → sent ≡ []
        → u ≡ record s { handle = h }
        → Step s u sent
    drops_handle :
        s.handle.held ≡ true
        → sent ≡ []
        → u ≡ record s { handle = record s.handle { held = false } }
        → Step s u sent

  -- Any number of steps, with all that the actor sent in them.
  pub data Reach (s : System) : System → List Accepted → Type 0 where
    here : Reach s s []
    next :
        {u v : System} {sent more all : List Accepted}
        → Reach s u sent
        → Step u v more
        → all ≡ sent ++ more
        → Reach s v all
