-- ===== src/Netstack/Spawn/Examples.antt =====
-- The theorems on src/netstack/actor.rs's `spawn` at a concrete run of its tasks.
use smoltcp_socks.Common.{ℕ, ◌≡◌, ◌≤◌, refl, true, false, List, [], ◌∷◌, Option, none, some, arith}
use smoltcp_socks.Net.{v4}
use smoltcp_socks.Netstack.Socket.{established}
use smoltcp_socks.Netstack.Conn.{service}
use smoltcp_socks.Netstack.Actor.{Actor, Inbox, with_channels, try_accept, service_commands}
use smoltcp_socks.Netstack.Actor.Ownership
use smoltcp_socks.Netstack.Actor.Channels.{sending}
use smoltcp_socks.Netstack.Vconn
use smoltcp_socks.Netstack.Run.{Round, Trace, turn}
use smoltcp_socks.Netstack.Run.Safety.{IsRound}
use smoltcp_socks.Netstack.Spawn.{System, spawn, turn_of, Reach, here, next, goes_on}
use smoltcp_socks.Netstack.Spawn.Safety.{IsSafe, tasks-IsSafe}
use smoltcp_socks.Netstack.Toy.{Toy, toy, toy_laws, toy_set, toy_set_laws}

abbrev pub quiet_inbox : Inbox
quiet_inbox = record { gone = λ i. false; arrivals = []; is_closed = false; is_empty = true }

-- Every listener gets a client.
abbrev pub connects : List (ℕ × Toy) → List (ℕ × Toy)
connects [] = []
connects ((h, s) ∷ m) =
    (
      h,
      record s {
        state = established;
        local = some (record { addr = v4 (203 ∷ 0 ∷ 113 ∷ 1 ∷ []); port = 443 });
        remote = some (record { addr = v4 (10 ∷ 0 ∷ 0 ∷ 2 ∷ []); port = 50000 });
      },
    )
    ∷ connects m

abbrev pub busy_round : Round toy toy_set
busy_round = record {
  poll = connects;
  admits = λ channel. true;
  inbox = λ channel. quiet_inbox;
  poll_egress = λ p. p;
  poll_delay = some 250;
  stopped = false;
}

pub busy_round-IsRound : IsRound toy toy_set busy_round
busy_round-IsRound = record { polls = polls; polls_egress = λ p j. refl }
  where
    polls :
        (p : List (ℕ × Toy)) (j : ℕ)
        → Ownership.present (toy_set.get (connects p) j) ≡ Ownership.present (toy_set.get p j)
    polls [] j = refl
    polls ((h, s) ∷ m) j = ground (arith, polls m j)

abbrev pub or_else {ℓ} : {A : Type ℓ} → Option A → A → A
or_else none d = d
or_else (some a) d = a

abbrev pub nothing : System toy toy_set
nothing = record {
  actor = none;
  accepted = [];
  dispatching = false;
  relays = [];
  handle = record { sent = 0; held = false };
}

-- The tasks at the start, and their actor.
unfoldable abbrev pub first : System toy toy_set
unfolding spawn with_channels
first = or_else (spawn toy toy_set) nothing

abbrev pub no_actor : Actor toy toy_set
no_actor = record { sockets = []; conns = []; listeners = []; next_channel = 0 }

unfoldable abbrev pub first_actor : Actor toy toy_set
unfolding spawn with_channels
first_actor = or_else (first.actor) no_actor

-- The first turn, in which all four listeners accept.
unfoldable abbrev pub turned : Actor toy toy_set × Trace toy toy_set
unfolding spawn turn_of with_channels turn try_accept service_commands service Vconn.new
turned =
    or_else (turn_of toy toy_set busy_round [] first_actor)
      (no_actor, record { accepted = []; log = []; sleeps = [] })

abbrev second : System toy toy_set
unfolding spawn turn_of with_channels turn try_accept service_commands service Vconn.new
second = record first { actor = some turned.0; accepted = turned.1.accepted }

spawned : spawn toy toy_set ≡ some first
unfolding spawn with_channels
spawned = refl

first_turn : Reach toy toy_set first second turned.1.accepted
unfolding spawn turn_of with_channels turn try_accept service_commands service Vconn.new
first_turn =
    next here
      (goes_on busy_round first_actor turned.0 turned.1 busy_round-IsRound refl refl refl refl) refl

-- Four connections with channels of their own wait for the dispatcher.
first_turn_sends : sending 2 turned.1.accepted ≡ 1
unfolding spawn turn_of with_channels turn try_accept service_commands service Vconn.new
first_turn_sends = refl

tasks-IsSafe_example :
    IsSafe toy toy_set second turned.1.accepted × ((k : ℕ) → sending k turned.1.accepted ≤ 1)
tasks-IsSafe_example =
    tasks-IsSafe toy toy_laws toy_set toy_set_laws first second turned.1.accepted spawned first_turn
