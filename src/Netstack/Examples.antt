-- ===== src/Netstack/Examples.antt =====
-- Tests of src/netstack/actor.rs over the sockets of Netstack/Toy.antt, and its theorems at concrete
-- inputs.
use smoltcp_socks.Common.{
  ℕ, ◌+◌, ◌≤◌, ◌≡◌, refl, Bool, true, false, List, [], ◌∷◌, ◌++◌, none, some, codes, length, ok,
  err, arith, All,
}
use smoltcp_socks.Net.{v4}
use smoltcp_socks.Netstack.Vconn.{ConnCmd, read, write, io, would_block}
use smoltcp_socks.Netstack.Socket.{established}
use smoltcp_socks.Netstack.Conn.{
  ConnState, PendingRead, PendingWrite, read_reply, write_reply, Arrival, service, serve_read,
  serve_write,
}
use smoltcp_socks.Netstack.Conn.Replies.{asked, waiting, resolved, refused, service_resolves}
use smoltcp_socks.Netstack.Conn.Settled.{Settled, last_gone, service_settles}
use smoltcp_socks.Netstack.Conn.Transfer.{delivered, confirmed, service_moves}
use smoltcp_socks.Netstack.Actor.{Actor, Inbox, with_channels}
use smoltcp_socks.Netstack.Actor.Ownership
use smoltcp_socks.Netstack.Actor.Ownership.{IsSound, try_accept-IsSound}
use smoltcp_socks.Netstack.Run.{Round, Trace, run}
use smoltcp_socks.Netstack.Run.Safety.{IsPrompt, IsRound, run_safe}
use smoltcp_socks.Netstack.Toy.{Toy, toy, toy_laws, toy_set, toy_set_laws, fresh_socket}

abbrev nobody : ℕ → Bool
nobody i = false

-- An open connection with "ping" to read and room for four bytes.
abbrev open_socket : Toy
open_socket = record {
  state = established;
  local = some (record { addr = v4 (203 ∷ 0 ∷ 113 ∷ 1 ∷ []); port = 443 });
  remote = some (record { addr = v4 (10 ∷ 0 ∷ 0 ∷ 2 ∷ []); port = 50000 });
  rx = codes "ping";
  tx = [];
  room = 4;
  receiving = true;
  sending = true;
}

abbrev arrival : ConnCmd → Arrival
arrival c = record { cmd = c; gone = nobody }

abbrev idle : ConnState
idle = record { cmd_rx = 0; read = none; write = none }

-- A read, a write that fits in part, and a second read that has to wait.
abbrev commands : List Arrival
commands = arrival (read 8 1) ∷ arrival (write (codes "abcdef") 2) ∷ arrival (read 8 3) ∷ []

service_runs :
    (service toy nobody commands idle open_socket).2
    ≡ read_reply 1 (ok (codes "ping")) ∷ write_reply 2 (ok 4) ∷ []
unfolding service
service_runs = refl

-- A third read is refused, while the second one waits.
abbrev crowded : List Arrival
crowded = commands ++ arrival (read 8 4) ∷ []

service_refuses :
    (service toy nobody crowded idle open_socket).2
    ≡ read_reply 1 (ok (codes "ping"))
      ∷ write_reply 2 (ok 4)
      ∷ read_reply 4 (err (io (would_block "a read is already pending")))
      ∷ []
unfolding service
service_refuses = refl

service_resolves_example :
    let (c', s', log) = service toy nobody crowded idle open_socket in
    (asked 3 crowded + waiting 3 idle ≡ resolved 3 log + waiting 3 c')
    × (refused 3 log ≤ asked 3 crowded)
service_resolves_example = service_resolves toy 3 nobody crowded idle open_socket

service_settles_example :
    let (c', s', log) = service toy nobody commands idle open_socket in
    Settled toy (last_gone nobody commands) c' s'
service_settles_example = service_settles toy toy_laws nobody commands idle open_socket

service_moves_example :
    let (c', s', log) = service toy nobody commands idle open_socket in
    (codes "ping" ≡ delivered log ++ s'.rx) × (length s'.tx ≡ 0 + confirmed log)
service_moves_example = service_moves toy toy_laws nobody commands idle open_socket

-- The peer has closed its side, and nothing is left to read.
abbrev finished_socket : Toy
finished_socket = record open_socket { rx = []; receiving = false }

abbrev one_read : PendingRead
one_read = record { max_len = 8; reply = 1 }

finished_read :
    (serve_read toy nobody (some one_read) finished_socket).2 ≡ read_reply 1 (ok []) ∷ []
unfolding serve_read
finished_read = refl

abbrev no_write : PendingWrite
no_write = record { body = []; reply = 1 }

empty_write : (serve_write toy nobody (some no_write) open_socket).2 ≡ write_reply 1 (ok 0) ∷ []
unfolding serve_write
empty_write = refl

-- Two rounds: the sockets are polled, every connection is admitted, no relay asks for anything.
abbrev quiet_inbox : Inbox
quiet_inbox = record { gone = nobody; arrivals = []; is_closed = false; is_empty = true }

abbrev connects : List (ℕ × Toy) → List (ℕ × Toy)
connects [] = []
connects ((h, s) ∷ m) = (h, record open_socket { room = s.room }) ∷ m

abbrev busy_round : Round toy toy_set
busy_round = record {
  poll = connects;
  admits = λ channel. true;
  inbox = λ channel. quiet_inbox;
  poll_egress = λ p. p;
  poll_delay = some 250;
  stopped = false;
}

busy_round-IsRound : IsRound toy toy_set busy_round
busy_round-IsRound = record { polls = polls; polls_egress = λ p j. refl }
  where
    polls :
        (p : List (ℕ × Toy)) (j : ℕ)
        → Ownership.present (toy_set.get (connects p) j) ≡ Ownership.present (toy_set.get p j)
    polls [] j = refl
    polls ((h, s) ∷ m) j = ground arith

run_safe_example :
    (a b : Actor toy toy_set) × (x : Trace toy toy_set) × (with_channels toy toy_set ≡ some a)
    × (run toy toy_set (busy_round ∷ busy_round ∷ []) a ≡ some (b, x))
    × IsSound toy toy_set b
    × All IsPrompt x.sleeps
run_safe_example =
    run_safe toy toy_laws toy_set toy_set_laws (busy_round ∷ busy_round ∷ [])
      (busy_round-IsRound, (busy_round-IsRound, tt))

-- One listener slot that holds an established connection.
abbrev one_slot : Actor toy toy_set
one_slot = record {
  sockets = (7, open_socket) ∷ (6, fresh_socket 4) ∷ (5, fresh_socket 4) ∷ (3, fresh_socket 4) ∷ [];
  conns = [];
  listeners = 7 ∷ 6 ∷ 5 ∷ 3 ∷ [];
  next_channel = 0;
}

one_slot-IsSound : IsSound toy toy_set one_slot
one_slot-IsSound = record { owned = λ j. ground arith; pool = refl }
