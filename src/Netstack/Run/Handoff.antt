-- ===== src/Netstack/Run/Handoff.antt =====
-- What a turn of src/netstack/actor.rs's `run` sends to the dispatcher.
use smoltcp_socks.Common.{ℕ, ◌≡◌, subst, sym, some, arith}
use smoltcp_socks.Netstack.Socket.{Tcp, SocketSet}
use smoltcp_socks.Netstack.Actor.{Actor, try_accept, service_commands}
use smoltcp_socks.Netstack.Actor.Channels.{
  Ascending, Returning, Returning-bind, Returning-eq-some, Returning-same,
}
use smoltcp_socks.Netstack.Actor.Sends.{Hands, try_accept-Hands, service_commands-le}
use smoltcp_socks.Netstack.Run.{Round, Trace, turn}

module _ (t : Tcp) (ss : SocketSet t) where
  turn-Returning :
      (r : Round t ss) (a : Actor t ss)
      → Returning (λ o. Hands t ss r.admits a o.0 o.1.accepted) (turn t ss r a)
  unfolding turn
  turn-Returning r a =
      let polled = record a { sockets = r.poll a.sockets } in
      Returning-bind _ _ (try_accept t ss r.admits polled) _
        (Returning-same (try_accept t ss r.admits polled))
        (λ x e.
          let h = try_accept-Hands t ss r.admits polled x.0 x.1 e in
          Returning-bind _ _ (service_commands t ss r.inbox x.0) _
            (Returning-same (service_commands t ss r.inbox x.0))
            (λ y f.
              let kept = λ (k : ℕ). service_commands-le t ss r.inbox k x.0 y.0 y.1 f in
              record {
                fresh = subst (Ascending a.next_channel x.1) (sym (kept 0).1) h.fresh;
                admitted = h.admitted;
                matched = λ k. omega (arith, h.matched k, (kept k).0);
              }))

  pub turn-Hands :
      (r : Round t ss) (a b : Actor t ss) (x : Trace t ss)
      → turn t ss r a ≡ some (b, x)
      → Hands t ss r.admits a b x.accepted
  turn-Hands r a b x e =
      Returning-eq-some (λ o. Hands t ss r.admits a o.0 o.1.accepted) (turn t ss r a) (b, x)
        (turn-Returning r a) e
