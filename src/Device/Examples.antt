-- ===== src/Device/Examples.antt =====
-- Tests of src/device.rs, and its theorem at concrete packets.
use smoltcp_socks.Common.{◌≡◌, refl, List, [], ◌∷◌, true, Option, none, some, length, arith}
use smoltcp_socks.Mpsc.Toy.{ToyChannel, channels, channels_laws}
use smoltcp_socks.Device.{
  Packet, Bridge, RxToken, TxToken, outbound_tx, receive, consume, rx_consume,
}
use smoltcp_socks.Device.Receive.{Received, receive_ends}

abbrev channel : List Packet → ToyChannel Packet
channel l = record { queued = l; depth = 2; has_sender = true; has_receiver = true }

-- A packet waits in the buffer and two in the channel.
abbrev loaded : Bridge channels
loaded = record {
  phy = record { inbound_buf = (1 ∷ []) ∷ []; mtu = 1500 };
  inbound = channel ((2 ∷ []) ∷ (3 ∷ []) ∷ []);
  outbound = channel ((8 ∷ []) ∷ []);
}

abbrev unloaded : Bridge channels
unloaded = record {
  phy = record { inbound_buf = (2 ∷ []) ∷ (3 ∷ []) ∷ []; mtu = 1500 };
  inbound = channel [];
  outbound = channel ((8 ∷ []) ∷ []);
}

receive_runs :
    receive channels 3 loaded ≡ some (some (record { buffer = 1 ∷ [] }, outbound_tx), unloaded)
unfolding receive
receive_runs = refl

out_of_fuel : receive channels 2 loaded ≡ none
unfolding receive
out_of_fuel = refl

receive_ends_example :
    (t : Option (RxToken × TxToken)) × (u : Bridge channels) × (receive channels 3 loaded
      ≡ some (t, u))
    × Received channels loaded u t
receive_ends_example = receive_ends channels channels_laws 3 loaded (omega arith)

-- There is room for one packet more, and the second is dropped.
consume_runs :
    (consume {0} channels 2
      (λ b. (tt, 9 ∷ b))
      (consume {0} channels 1 (λ b. (tt, b)) loaded).1).1.outbound.queued
    ≡ (8 ∷ []) ∷ (0 ∷ []) ∷ []
unfolding consume
consume_runs = refl

rx_consume_runs : rx_consume (record { buffer = 4 ∷ 5 ∷ [] }) length ≡ 2
unfolding rx_consume
rx_consume_runs = refl
