-- ===== src/Runtime/World/Examples.antt =====
-- The theorems on the whole program of src/runtime.rs at a concrete run of its tasks.
use smoltcp_socks.Common.{refl, [], ◌∷◌, some}
use smoltcp_socks.Mpsc.Toy.{channels, channels_laws}
use smoltcp_socks.Device.{consume, new}
use smoltcp_socks.Netstack.Actor.{with_channels, try_accept, service_commands}
use smoltcp_socks.Netstack.Conn.{service}
use smoltcp_socks.Netstack.Interface.Toy.{toy_api, toy_api_laws}
use smoltcp_socks.Netstack.Run.{turn}
use smoltcp_socks.Netstack.Spawn.{System, running, spawn, turn_of, goes_on}
use smoltcp_socks.Netstack.Spawn.Examples.{
  first, busy_round, busy_round-IsRound, first_actor, turned,
}
use smoltcp_socks.Netstack.Toy.{toy, toy_laws, toy_set, toy_set_laws}
use smoltcp_socks.Netstack.Vconn
use smoltcp_socks.Runtime.Pump.{Pumping, pump_round, tun_read}
use smoltcp_socks.Runtime.Pump.Examples.{cfg, filled, started, start_runs, system}
use smoltcp_socks.Runtime.Pump.Flow.{Flow, pumps, transmits}
use smoltcp_socks.Runtime.World.{World, begin, moves, acts, Reach, here, next}
use smoltcp_socks.Runtime.World.Safety.{IsWhole, IsLossless, start-IsWhole}
use smoltcp_socks.Runtime.World.Ending.{CanStop, start-CanStop}

-- Four connections are accepted, a packet comes from the device and smoltcp sends one.
abbrev at_start : World channels toy toy_set
unfolding spawn with_channels started
at_start = begin channels toy toy_set toy_api started

abbrev busy : System toy toy_set
unfolding spawn turn_of turned started system at_start first first_actor with_channels turn
    try_accept service_commands service Vconn.new
busy = record at_start.tasks { actor = some turned.0; accepted = turned.1.accepted }

abbrev after_read : Pumping channels
unfolding new pump_round at_start
after_read = pump_round channels (tun_read (some (1 ∷ []))) at_start.packets

abbrev later : World channels toy toy_set
unfolding new pump_round consume busy after_read
later = record {
  tasks = busy;
  packets = record after_read { bridge = (consume channels 1 filled after_read.bridge).1 };
}

abbrev moved : Flow
moved = record { arrived = (1 ∷ []) ∷ []; delivered = []; sent = (7 ∷ 0 ∷ []) ∷ []; taken = [] }

run : Reach channels toy toy_set at_start later turned.1.accepted moved
unfolding spawn turn_of turned started system at_start busy after_read later first first_actor
    with_channels turn try_accept service_commands service Vconn.new new pump_round consume running
run =
    next
      (next
        (next here
          (acts busy
            (goes_on busy_round first_actor turned.0 turned.1 busy_round-IsRound refl refl refl
              refl)
            refl refl refl)
          refl refl)
        (moves after_read (pumps (tun_read (some (1 ∷ []))) refl refl refl) tt refl refl) refl refl)
      (moves later.packets (transmits 1 filled refl refl refl) tt refl refl) refl refl

start-IsWhole_example :
    IsWhole channels toy toy_set later turned.1.accepted moved
    × IsLossless channels toy toy_set later moved
unfolding at_start
start-IsWhole_example =
    start-IsWhole channels toy toy_set channels_laws toy_laws toy_set_laws toy_api toy_api_laws 0
      cfg started later turned.1.accepted moved start_runs run

start-CanStop_example : CanStop channels toy toy_set later turned.1.accepted moved
unfolding at_start
start-CanStop_example =
    start-CanStop channels toy toy_set channels_laws toy_laws toy_set_laws toy_api toy_api_laws 0
      cfg started later turned.1.accepted moved busy_round start_runs run busy_round-IsRound
