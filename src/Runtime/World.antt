-- ===== src/Runtime/World.antt =====
-- The whole program once src/runtime.rs has started it: the tasks of src/netstack/actor.rs's `spawn`
-- beside the pump of `tun_pump`, with the channels of `Phy` between the actor and the pump. What the
-- actor does with `Phy` in a turn is a sequence of steps of its own, so that the pump may run between
-- any two of them.
mod Safety
mod Ending
mod Examples
use smoltcp_socks.Common.{◌≡◌, true, false, List, [], ◌++◌}
use smoltcp_socks.Mpsc.{Mpsc}
use smoltcp_socks.Device.{Packet}
use smoltcp_socks.Netstack.Interface.{InterfaceApi}
use smoltcp_socks.Netstack.Socket.{Tcp, SocketSet}
use smoltcp_socks.Netstack.Spawn.{Accepted, System, running}
use smoltcp_socks.Netstack.Spawn
use smoltcp_socks.Runtime.{Started}
use smoltcp_socks.Runtime.Pump.{Pumping, starting}
use smoltcp_socks.Runtime.Pump.Flow
use smoltcp_socks.Runtime.Pump.Flow.{Flow, still, joined, without_stack, IsMove}

module _ (m : Mpsc Packet) (t : Tcp) (ss : SocketSet t) where
  pub record World : Type 0 where
    pub tasks : System t ss
    pub packets : Pumping m

  -- The program as `start` leaves it.
  abbrev pub begin : (api : InterfaceApi) → Started m api t ss → World
  begin api r = record { tasks = r.system; packets = starting m r.bridge }

  -- `sent` are the connections that the actor accepts in the step, and `f` the packets that move.
  -- When the actor's task ends, `Phy` ends with it.
  pub data Step (w v : World) (sent : List Accepted) (f : Flow) : Type 0 where
    moves :
        (p : Pumping m) (st : Flow.Step m w.packets p f)
        → IsMove m st
        → sent ≡ []
        → v ≡ record w { packets = p }
        → Step w v sent f
    acts :
        (s : System t ss)
        → Spawn.Step t ss w.tasks s sent
        → running t ss s.actor ≡ running t ss w.tasks.actor
        → f ≡ still
        → v ≡ record w { tasks = s }
        → Step w v sent f
    actor_ends :
        (s : System t ss)
        → Spawn.Step t ss w.tasks s sent
        → running t ss w.tasks.actor ≡ true
        → running t ss s.actor ≡ false
        → f ≡ still
        → v ≡ record { tasks = s; packets = without_stack m w.packets }
        → Step w v sent f

  pub data Reach (w : World) : World → List Accepted → Flow → Type 0 where
    here : Reach w w [] still
    next :
        {u v : World} {sent more all : List Accepted} {f g h : Flow}
        → Reach w u sent f
        → Step u v more g
        → all ≡ sent ++ more
        → h ≡ joined f g
        → Reach w v all h
