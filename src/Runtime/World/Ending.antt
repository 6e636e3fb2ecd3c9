-- ===== src/Runtime/World/Ending.antt =====
-- How the whole program of src/runtime.rs comes to its end.
use smoltcp_socks.Common.{
  ◌≡◌, refl, ap, sym, ◌∙◌, true, false, Bool, List, [], ◌∷◌, ◌++◌, none, some, ok, append-nil, inl,
  inr, Bool-cases, ℕ,
}
use smoltcp_socks.Config.{Config}
use smoltcp_socks.Mpsc.{Mpsc, MpscLaws}
use smoltcp_socks.Device.{Packet}
use smoltcp_socks.Netstack.Interface.{InterfaceApi, InterfaceLaws}
use smoltcp_socks.Netstack.Socket.{Tcp, TcpLaws, SocketSet, SocketSetLaws}
use smoltcp_socks.Netstack.Run.{Round}
use smoltcp_socks.Netstack.Run.Safety.{IsRound}
use smoltcp_socks.Netstack.Spawn.{Accepted, System, running}
use smoltcp_socks.Netstack.Spawn
use smoltcp_socks.Netstack.Spawn.Stopping.{safe-CanEnd}
use smoltcp_socks.Runtime.{Started, start}
use smoltcp_socks.Runtime.Pump.{Pumping, outbound_ready, pump_round}
use smoltcp_socks.Runtime.Pump.Drain.{round_takes, round_ends}
use smoltcp_socks.Runtime.Pump.Flow.{Flow, still, joined, packets, pumps, pumped, without_stack}
use smoltcp_socks.Runtime.World.{World, begin, moves, acts, actor_ends, Reach, here, next}
use smoltcp_socks.Runtime.World.Safety.{IsWhole, IsWhole-IsLossless, Reach-IsWhole, start-IsWhole}

module _ (m : Mpsc Packet) (t : Tcp) (ss : SocketSet t) where
  -- A task that has ended stays so.
  no_revival :
      {s u : System t ss} {sent : List Accepted}
      → Spawn.Step t ss s u sent
      → running t ss s.actor ≡ false
      → running t ss u.actor ≡ false
  unfolding running
  no_revival {s} {u} (Spawn.goes_on r a b x legal at turned says to) off = absurd (cc)
  no_revival {s} {u} (Spawn.stops r a b x legal at turned asked says to) off =
      ap (λ (u : System t ss). running t ss u.actor) to
  no_revival {s} {u} (Spawn.panics r a legal at turned says to) off =
      ap (λ (u : System t ss). running t ss u.actor) to
  no_revival {s} {u} (Spawn.relays_one p queue on at says to) off =
      ap (λ (u : System t ss). running t ss u.actor) to ∙ off
  no_revival {s} {u} (Spawn.dispatcher_ends on at gone says to) off =
      ap (λ (u : System t ss). running t ss u.actor) to ∙ off
  no_revival {s} {u} (Spawn.asks_to_stop h held sends says to) off =
      ap (λ (u : System t ss). running t ss u.actor) to ∙ off
  no_revival {s} {u} (Spawn.drops_handle held says to) off =
      ap (λ (u : System t ss). running t ss u.actor) to ∙ off

  -- The tasks come to `s`, with the pump still as it was.
  abbrev Lifted : World m t ss → System t ss → List Accepted → Type 0
  Lifted w s more =
      (p : Pumping m) × (f : Flow) × Reach m t ss w (record { tasks = s; packets = p }) more f
      × (p.running ≡ w.packets.running)

  lift-Step :
      (w : World m t ss) (s u : System t ss) (sent more all : List Accepted)
      → Lifted w s sent
      → Spawn.Step t ss s u more
      → all ≡ sent ++ more
      → Lifted w u all
  lift-Step w s u sent more all (p, f, r, same) st e = elim (Bool-cases (running t ss s.actor)) [
    | inl on ↦ elim (Bool-cases (running t ss u.actor)) [
      | inl still_on ↦
          (p, joined f still, next r (acts u st (still_on ∙ sym on) refl refl) e refl, same)
      | inr off ↦ (
        without_stack m p,
        joined f still,
        next r (actor_ends u st on off refl refl) e refl,
        same,
      )
    ]
    | inr off ↦
        (p, joined f still, next r (acts u st (no_revival st off ∙ sym off) refl refl) e refl, same)
  ]

  lift :
      (w : World m t ss) (s : System t ss) (sent : List Accepted)
      → Spawn.Reach t ss w.tasks s sent
      → Lifted w s sent
  lift w _ _ Spawn.here = (w.packets, still, here, refl)
  lift w s all (Spawn.next {u = u} {sent = sent} {more = more} r st e) =
      lift-Step w u s sent more all (lift w u sent r) st e

  -- From `w`, where `sent` was accepted and `f` has moved, the program can come to its end.
  abbrev pub CanStop : World m t ss → List Accepted → Flow → Type 0
  CanStop w sent f =
      (v : World m t ss) × (more : List Accepted) × (g : Flow) × Reach m t ss w v more g
      × (v.tasks.actor ≡ none)
      × (v.tasks.dispatching ≡ false)
      × (v.tasks.relays ≡ sent ++ more)
      × (v.packets.running ≡ false)
      × (w.packets.running ≡ true → (joined f g).sent ≡ packets (joined f g).taken)

  module _ (mpsc_laws : MpscLaws m) (laws : TcpLaws t) (set_laws : SocketSetLaws t ss)
      (w : World m t ss) (sent : List Accepted) (f : Flow) (whole : IsWhole m t ss w sent f) where
    -- The pump ends, and the tasks of the actor stay as they are.
    abbrev Drained : System t ss → List Accepted → Type 0
    Drained s more =
        (p : Pumping m) × (h : Flow) × Reach m t ss w (record { tasks = s; packets = p }) more h
        × (p.running ≡ false)
        × ((joined f h).sent ≡ packets (joined f h).taken)

    -- Without the actor, the pump works its queue off.
    drains :
        (l : List Packet) (u : World m t ss) (more : List Accepted) (g : Flow)
        → Reach m t ss w u more g
        → running t ss u.tasks.actor ≡ false
        → u.packets.running ≡ true
        → m.queued u.packets.bridge.outbound ≡ l
        → Drained u.tasks more
    drains [] u more g r off on at =
        let e = outbound_ready true in
        let h = joined g (pumped m e u.packets) in
        let now = Reach-IsWhole m t ss mpsc_laws laws set_laws whole r in
        let (ended, none_taken) =
          round_ends m mpsc_laws u.packets at (now.links.stack_sends ∙ off) in
        (
          pump_round m e u.packets,
          h,
          next r (moves (pump_round m e u.packets) (pumps e on refl refl) tt refl refl)
              (sym (append-nil more)) refl,
          ended,
          ap (λ l. f.sent ++ l) (append-nil g.sent)
              ∙ (IsWhole-IsLossless m t ss now).outbound on
              ∙ ap (λ l. packets (f.taken ++ g.taken) ++ l) at
              ∙ append-nil (packets (f.taken ++ g.taken))
              ∙ ap (λ l. packets (f.taken ++ l))
                  (sym (append-nil g.taken) ∙ ap (λ l. g.taken ++ l) (sym none_taken)),
        )
    drains (p ∷ l) u more g r off on at =
        let e = outbound_ready true in
        let (same, rest) = round_takes m mpsc_laws u.packets p l at in
        drains l (record u { packets = pump_round m e u.packets }) more
          (joined g (pumped m e u.packets))
          (next r (moves (pump_round m e u.packets) (pumps e on refl refl) tt refl refl)
            (sym (append-nil more)) refl)
          off (same ∙ on) rest

    pump_drains :
        (s : System t ss) (more : List Accepted)
        → Lifted w s more
        → s.actor ≡ none
        → (b : Bool) → w.packets.running ≡ b
        → (p : Pumping m) × (h : Flow) × Reach m t ss w (record { tasks = s; packets = p }) more h
          × (p.running ≡ false)
          × (b ≡ true → (joined f h).sent ≡ packets (joined f h).taken)
    unfolding running
    pump_drains s more (p, g, r, same) gone true on =
        let (q, h, r', off, all) =
          drains (m.queued p.bridge.outbound) (record { tasks = s; packets = p }) more g r
            (ap (running t ss) gone) (same ∙ on) refl in
        (q, h, r', off, λ _. all)
    pump_drains s more (p, g, r, same) gone false off = (p, g, r, same ∙ off, λ e. absurd (cc))

    whole-CanStop : (r : Round t ss) → IsRound t ss r → CanStop w sent f
    whole-CanStop r legal =
        let (s, more, reached, gone, off, all) =
          safe-CanEnd t laws ss set_laws w.tasks sent r legal whole.tasks in
        let (p, g, r', ended, taken) =
          pump_drains s more (lift w s more reached) gone w.packets.running refl in
        (record { tasks = s; packets = p }, more, g, r', gone, off, all, ended, taken)

  -- Whatever the started program has done so far, as long as smoltcp can take one more round it can
  -- come to its end: the actor and the dispatcher stop, with a relay started for every connection
  -- that was ever accepted, in order, and so does the pump; if the pump still ran, it has first taken
  -- every packet that smoltcp ever sent, in order.
  pub start-CanStop :
      (mpsc_laws : MpscLaws m) (laws : TcpLaws t) (set_laws : SocketSetLaws t ss)
      (api : InterfaceApi) (iface_laws : InterfaceLaws api) (now : ℕ) (cfg : Config)
      (s : Started m api t ss) (w : World m t ss) (sent : List Accepted) (f : Flow) (r : Round t ss)
      → start m api t ss now cfg ≡ some (ok s)
      → Reach m t ss (begin m t ss api s) w sent f
      → IsRound t ss r
      → CanStop w sent f
  start-CanStop mpsc_laws laws set_laws api iface_laws now cfg s w sent f r e reached legal =
      let (whole, _) =
        start-IsWhole m t ss mpsc_laws laws set_laws api iface_laws now cfg s w sent f e reached in
      whole-CanStop mpsc_laws laws set_laws w sent f whole r legal
