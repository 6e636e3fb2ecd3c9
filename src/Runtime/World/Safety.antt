-- ===== src/Runtime/World/Safety.antt =====
-- What holds of the whole program of src/runtime.rs in every order in which its tasks run.
use mathlib.Core.Path.{subst₂}
use smoltcp_socks.Common.{
  ℕ, ◌≡◌, refl, ap, sym, subst, ◌∙◌, true, List, [], ◌++◌, some, ok, append_assoc, append-nil,
}
use smoltcp_socks.Config.{Config}
use smoltcp_socks.Mpsc.{Mpsc, MpscLaws}
use smoltcp_socks.Device.{Packet}
use smoltcp_socks.Netstack.Interface.{InterfaceApi, InterfaceLaws}
use smoltcp_socks.Netstack.Socket.{Tcp, TcpLaws, SocketSet, SocketSetLaws}
use smoltcp_socks.Netstack.Spawn.{Accepted, running}
use smoltcp_socks.Netstack.Spawn.Safety.{IsSafe, Step-IsSafe, spawn_running}
use smoltcp_socks.Runtime.{Started, start}
use smoltcp_socks.Runtime.Checks.{start-IsStarted}
use smoltcp_socks.Runtime.Pump.{starting}
use smoltcp_socks.Runtime.Pump.Flow.{Flow, still, joined, packets, stack_ends, without_stack}
use smoltcp_socks.Runtime.Pump.Safety.{IsFlowing, step_still, Step-IsFlowing, starting-IsFlowing}
use smoltcp_socks.Runtime.Pump.Links.{
  IsLinked, Step-IsLinked, starting-IsLinked, without_stack-IsLinked,
}
use smoltcp_socks.Runtime.World.{World, begin, Step, moves, acts, actor_ends, Reach, here, next}

joined_assoc : (f g h : Flow) → joined (joined f g) h ≡ joined f (joined g h)
joined_assoc f g h = λ i. record {
  arrived = append_assoc f.arrived g.arrived h.arrived i;
  delivered = append_assoc f.delivered g.delivered h.delivered i;
  sent = append_assoc f.sent g.sent h.sent i;
  taken = append_assoc f.taken g.taken h.taken i;
}

module _ (m : Mpsc Packet) (t : Tcp) (ss : SocketSet t) where
  -- The tasks are safe, the packets are in order, and each task holds the ends that it was given.
  pub record IsWhole (w : World m t ss) (sent : List Accepted) (f : Flow) : Type 0 where
    pub tasks : IsSafe t ss w.tasks sent
    pub packets : IsFlowing m w.packets f
    pub links : IsLinked m (running t ss w.tasks.actor) w.packets

  -- The packets on their way are all in the bridge.
  pub record IsLossless (w : World m t ss) (f : Flow) : Type 0 where
    pub inbound :
        running t ss w.tasks.actor ≡ true
        → f.arrived
          ≡ f.delivered ++ (w.packets.bridge.phy.inbound_buf ++ m.queued w.packets.bridge.inbound)
    pub outbound :
        w.packets.running ≡ true → f.sent ≡ packets f.taken ++ m.queued w.packets.bridge.outbound

  pub IsWhole-IsLossless :
      {w : World m t ss} {sent : List Accepted} {f : Flow} → IsWhole w sent f → IsLossless w f
  IsWhole-IsLossless {f} h = record {
    inbound = λ runs.
        h.packets.inbound.order
        ∙ ap (◌++◌ f.delivered) (h.packets.inbound.live (h.links.stack_receives ∙ runs));
    outbound = λ runs.
        h.packets.outbound.order
        ∙ ap (◌++◌ (packets f.taken)) (h.packets.outbound.live (h.links.pump_receives ∙ runs));
  }

  module _ (mpsc_laws : MpscLaws m) (laws : TcpLaws t) (set_laws : SocketSetLaws t ss) where
    Step-IsWhole :
        {w v : World m t ss} {sent more : List Accepted} {f g : Flow}
        → Step m t ss w v more g
        → IsWhole w sent f
        → IsWhole v (sent ++ more) (joined f g)
    Step-IsWhole {w} {v} {sent} {more} {f} {g} (moves p st k says to) h =
        subst (λ v. IsWhole v (sent ++ more) (joined f g)) (sym to)
          (record {
            tasks =
                subst (IsSafe t ss w.tasks) (sym (ap (◌++◌ sent) says ∙ append-nil sent)) h.tasks;
            packets = Step-IsFlowing m mpsc_laws w.packets p f g st h.packets;
            links =
                Step-IsLinked m mpsc_laws (running t ss w.tasks.actor) w.packets p g st k h.links;
          })
    Step-IsWhole {w} {v} {sent} {more} {f} {g} (acts s st same idle to) h =
        subst (λ v. IsWhole v (sent ++ more) (joined f g)) (sym to)
          (record {
            tasks = Step-IsSafe t laws ss set_laws st h.tasks;
            packets =
                subst (λ g. IsFlowing m w.packets (joined f g)) (sym idle)
                  (step_still m mpsc_laws h.packets);
            links = subst (λ b. IsLinked m b w.packets) (sym same) h.links;
          })
    Step-IsWhole {w} {v} {sent} {more} {f} {g} (actor_ends s st was is idle to) h =
        subst (λ v. IsWhole v (sent ++ more) (joined f g)) (sym to)
          (record {
            tasks = Step-IsSafe t laws ss set_laws st h.tasks;
            packets =
                Step-IsFlowing m mpsc_laws w.packets (without_stack m w.packets) f g
                  (stack_ends refl idle) h.packets;
            links =
                subst (λ b. IsLinked m b (without_stack m w.packets)) (sym is)
                  (without_stack-IsLinked m mpsc_laws (running t ss w.tasks.actor) w.packets
                    h.links);
          })

    pub Reach-IsWhole :
        {w v : World m t ss} {sent more : List Accepted} {f g : Flow}
        → IsWhole w sent f
        → Reach m t ss w v more g
        → IsWhole v (sent ++ more) (joined f g)
    Reach-IsWhole {w} {sent} {f} h here = record {
      tasks = subst (IsSafe t ss w.tasks) (sym (append-nil sent)) h.tasks;
      packets = step_still m mpsc_laws h.packets;
      links = h.links;
    }
    Reach-IsWhole {v} {sent} {f} h (next {sent = l} {more = l'} {f = g} {g = g'} r st says moved) =
        subst₂ (IsWhole v) (append_assoc sent l l' ∙ sym (ap (◌++◌ sent) says))
          (joined_assoc f g g' ∙ sym (ap (joined f) moved)) (Step-IsWhole st (Reach-IsWhole h r))

    module _ (api : InterfaceApi) (iface_laws : InterfaceLaws api) where
      begin-IsWhole :
          (now : ℕ) (cfg : Config) (r : Started m api t ss)
          → start m api t ss now cfg ≡ some (ok r)
          → IsWhole (begin m t ss api r) [] still
      begin-IsWhole now cfg r e =
          let h = start-IsStarted m api t ss iface_laws laws set_laws now cfg r e in
          record {
            tasks = h.tasks_safe;
            packets =
                subst (λ b. IsFlowing m (starting m b) still) (sym h.bridge_new)
                  (starting-IsFlowing m mpsc_laws r.pump_mtu);
            links =
                subst (λ b. IsLinked m b (starting m r.bridge))
                  (sym (spawn_running t laws ss set_laws r.system h.spawned))
                  (subst (λ b. IsLinked m true (starting m b)) (sym h.bridge_new)
                    (starting-IsLinked m mpsc_laws r.pump_mtu));
          }

      -- Once the program has started, in every order in which the actor, the dispatcher, the pump and
      -- the caller of the handle act: the connections are handed over as they should be, the packets
      -- of both channels are in order and within the depth, and the ends of the channels are closed
      -- exactly by the end of the task that held them. As long as the actor runs, each packet that
      -- the pump put into its channel has been given to smoltcp or waits for it in the bridge, in
      -- order; as long as the pump runs, each packet that smoltcp sent has been taken by the pump or
      -- waits for it, in order.
      pub start-IsWhole :
          (now : ℕ) (cfg : Config) (r : Started m api t ss) (w : World m t ss)
          (sent : List Accepted) (f : Flow)
          → start m api t ss now cfg ≡ some (ok r)
          → Reach m t ss (begin m t ss api r) w sent f
          → IsWhole w sent f × IsLossless w f
      start-IsWhole now cfg r w sent f e reached =
          let whole = Reach-IsWhole (begin-IsWhole now cfg r e) reached in
          (whole, IsWhole-IsLossless whole)
