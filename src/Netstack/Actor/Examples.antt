-- ===== src/Netstack/Actor/Examples.antt =====
-- The theorems on src/netstack/actor.rs's hand-off at concrete sockets.
use smoltcp_socks.Common.{ℕ, zero, suc, ◌≡◌, refl, inl, true, false, [], ◌∷◌, none, some, codes}
use smoltcp_socks.Net.{v4}
use smoltcp_socks.Netstack.Socket.{Endpoint, established}
use smoltcp_socks.Netstack.Conn.{ConnState, service, fail_pending}
use smoltcp_socks.Netstack.Actor.{Actor, Accepting, Inbox, accept_slot, service_commands}
use smoltcp_socks.Netstack.Actor.Handoff.{
  IsConnected, HandsOff, Replaces, meta_between, accept_slot-HandsOff, accept_slot-Replaces,
}
use smoltcp_socks.Netstack.Toy.{Toy, toy, toy_laws, toy_set, toy_set_laws, fresh_socket}

abbrev server_end : Endpoint
server_end = record { addr = v4 (203 ∷ 0 ∷ 113 ∷ 1 ∷ []); port = 443 }

abbrev client_end : Endpoint
client_end = record { addr = v4 (10 ∷ 0 ∷ 0 ∷ 2 ∷ []); port = 50000 }

abbrev connected : Toy
connected = record {
  state = established;
  local = some server_end;
  remote = some client_end;
  rx = codes "ping";
  tx = [];
  room = 4;
  receiving = true;
  sending = true;
}

connected-IsConnected : IsConnected toy connected server_end client_end
connected-IsConnected = record { state = inl refl; local_end = refl; remote_end = refl }

abbrev accepting : Accepting toy toy_set
accepting = record {
  sockets = (7, connected) ∷ (6, fresh_socket 4) ∷ [];
  conns = [];
  next_channel = 3;
  accepted = [];
}

accept_slot-HandsOff_example :
    (h' : ℕ) × (b : Accepting toy toy_set) × (accept_slot toy toy_set (λ c. true) accepting 7
      ≡ some (h', b))
    × HandsOff toy toy_set accepting 7 (meta_between server_end client_end) h' b
accept_slot-HandsOff_example =
    accept_slot-HandsOff toy toy_laws toy_set toy_set_laws (λ c. true) accepting 7 connected
      server_end client_end refl connected-IsConnected refl

accept_slot-Replaces_example :
    (h' : ℕ) × (b : Accepting toy toy_set) × (accept_slot toy toy_set (λ c. false) accepting 7
      ≡ some (h', b))
    × Replaces toy toy_set accepting 7 h' b
accept_slot-Replaces_example =
    accept_slot-Replaces toy toy_laws toy_set toy_set_laws (λ c. false) accepting 7 connected
      server_end client_end refl connected-IsConnected refl

-- The relay of channel 0 is gone, that of channel 1 is not.
abbrev half_gone : ℕ → Inbox
half_gone zero = record { gone = λ i. false; arrivals = []; is_closed = true; is_empty = true }
half_gone (suc n) = record { gone = λ i. false; arrivals = []; is_closed = false; is_empty = true }

abbrev idle : ℕ → ConnState
idle n = record { cmd_rx = n; read = none; write = none }

abbrev two_conns : Actor toy toy_set
two_conns = record {
  sockets = (7, connected) ∷ (6, connected) ∷ [];
  conns = (7, idle 0) ∷ (6, idle 1) ∷ [];
  listeners = [];
  next_channel = 2;
}

-- A write puts the socket in front of its older values.
abbrev one_conn : Actor toy toy_set
one_conn = record {
  sockets = (6, connected) ∷ (6, connected) ∷ [];
  conns = (6, idle 1) ∷ [];
  listeners = [];
  next_channel = 2;
}

service_commands_drops : service_commands toy toy_set half_gone two_conns ≡ some (one_conn, [])
unfolding service_commands service fail_pending
service_commands_drops = refl
