-- ===== src/Netstack/Actor/Sends.antt =====
-- What the operations of src/netstack/actor.rs's `NetstackActor` do to the command channels.
use smoltcp_socks.Common.{
  ℕ, suc, ◌+◌, ◌≤◌, ◌≡◌, refl, ap, sym, subst, ◌&&◌, Bool, true, List, [], ◌∷◌, Option, none, some,
  arith, All, Bool-cases, inl, inr, append-nil,
}
use smoltcp_socks.Netstack.Vconn
use smoltcp_socks.Netstack.Vconn.{ConnMeta, VConn}
use smoltcp_socks.Netstack.Socket.{Tcp, SocketSet}
use smoltcp_socks.Netstack.Conn
use smoltcp_socks.Netstack.Conn.{ConnState, Event, Out, service, fail_pending}
use smoltcp_socks.Netstack.Actor.Ownership.{hit}
use smoltcp_socks.Netstack.Conn.CmdRx.{service-cmd_rx}
use smoltcp_socks.Netstack.Actor.{
  Verdict, keep, offer, discard, Actor, Accepting, add_wildcard_listener, replace_listener,
  hand_off, offer_conn, dispatch, accept_slot, accept_slots, try_accept, Inbox, settle_conn,
  service_conn, service_conns, service_commands,
}
use smoltcp_socks.Netstack.Actor.Channels.{
  Accepted, listening, sending, Ascending, listening-insert, listening-append, Returning,
  Returning-bind, Returning-eq-some, Sends, Sends-refl, Sends-trans,
}

-- Nothing is known of what is returned.
returned {ℓ} : {A : Type ℓ} (o : Option A) → Returning (λ a. Unit {0}) o
returned none = tt
returned (some a) = tt

module _ (t : Tcp) (ss : SocketSet t) (admits : ℕ → Bool) where
  abbrev SendsTo : Accepting t ss → Option (ℕ × Accepting t ss) → Type 0
  SendsTo a = Returning (λ r. Sends t ss admits a r.1)

  -- Nothing is handed off, but a channel number may be used up.
  quiet :
      (a : Accepting t ss) (p : ss.Sockets) (n : ℕ)
      → a.next_channel ≤ n
      → Sends t ss admits a (record a { sockets = p; next_channel = n })
  quiet a p n le = record {
    sent = [];
    log = sym (append-nil a.accepted);
    fresh = le;
    admitted = tt;
    matched = λ k. omega arith;
  }

  replace_listener-Sends :
      (a : Accepting t ss) (n h : ℕ) (s : t.Socket)
      → a.next_channel ≤ n
      → SendsTo a (replace_listener t ss (record a { next_channel = n }) h s)
  unfolding replace_listener
  replace_listener-Sends a n h s le =
      Returning-bind _ _ (ss.remove (ss.put a.sockets h (t.abort s)) h) _ (returned _) (λ p _.
        Returning-bind _ _ (add_wildcard_listener t ss p) _ (returned _) (λ x _. quiet a x.1 n le))

  hand_off-Sends :
      (a : Accepting t ss) (h : ℕ) (meta : ConnMeta)
      → admits a.next_channel ≡ true
      → SendsTo a (hand_off t ss a h meta)
  unfolding hand_off Vconn.new Conn.new
  hand_off-Sends a h meta e =
      Returning-bind _ _ (add_wildcard_listener t ss a.sockets) _ (returned _) (λ x _. record {
        sent = (Vconn.new meta a.next_channel, meta) ∷ [];
        log = refl;
        fresh = (omega arith, refl, omega arith);
        admitted = (e, tt);
        matched = λ k. omega (arith, listening-insert k h (Conn.new a.next_channel) a.conns);
      })

  offer_conn-Sends :
      (a : Accepting t ss) (h : ℕ) (s : t.Socket) (meta : Option ConnMeta)
      → SendsTo a (offer_conn t ss admits a h s meta)
  unfolding offer_conn
  offer_conn-Sends a h s none = replace_listener-Sends a a.next_channel h s (omega arith)
  offer_conn-Sends a h s (some meta) = elim (Bool-cases (admits a.next_channel)) [
    | inl e ↦ rw e (hand_off-Sends a h meta e)
    | inr e ↦ rw e (replace_listener-Sends a (suc a.next_channel) h s (omega arith))
  ]

  dispatch-Sends :
      (a : Accepting t ss) (h : ℕ) (s : t.Socket) (v : Verdict)
      → SendsTo a (dispatch t ss admits a h s v)
  unfolding dispatch
  dispatch-Sends a h s keep = Sends-refl t ss admits a
  dispatch-Sends a h s offer = offer_conn-Sends a h s _
  dispatch-Sends a h s discard = replace_listener-Sends a a.next_channel h s (omega arith)

  accept_slot-Sends : (a : Accepting t ss) (h : ℕ) → SendsTo a (accept_slot t ss admits a h)
  unfolding accept_slot
  accept_slot-Sends a h =
      Returning-bind _ _ (ss.get a.sockets h) _ (returned _) (λ s _. dispatch-Sends a h s _)

  pub accept_slots-Sends :
      (slots : List ℕ) (a : Accepting t ss)
      → Returning (λ r. Sends t ss admits a r.1) (accept_slots t ss admits a slots)
  unfolding accept_slots
  accept_slots-Sends [] a = Sends-refl t ss admits a
  accept_slots-Sends (h ∷ slots) a =
      Returning-bind _ _ (accept_slot t ss admits a h) _ (accept_slot-Sends a h) (λ x p.
        Returning-bind _ _ (accept_slots t ss admits x.1 slots) _ (accept_slots-Sends slots x.1)
          (λ y q. Sends-trans t ss admits p q))

module _ (t : Tcp) (ss : SocketSet t) where
  -- What a round sends: each connection admitted, and on a new channel, to which at most its own
  -- entry of the map listens.
  pub record Hands (admits : ℕ → Bool) (a b : Actor t ss) (sent : List Accepted) : Type 0 where
    pub fresh : Ascending a.next_channel sent b.next_channel
    pub admitted : All (λ (p : Accepted). admits p.0.cmd ≡ true) sent
    pub matched : (k : ℕ) → listening k b.conns ≤ listening k a.conns + sending k sent

  abbrev start : Actor t ss → Accepting t ss
  start a = record {
    sockets = a.sockets;
    conns = a.conns;
    next_channel = a.next_channel;
    accepted = [];
  }

  try_accept-Returning :
      (admits : ℕ → Bool) (a : Actor t ss)
      → Returning (λ r. Hands admits a r.0 r.1) (try_accept t ss admits a)
  unfolding try_accept
  try_accept-Returning admits a =
      Returning-bind _ _ (accept_slots t ss admits (start a) a.listeners) _
        (accept_slots-Sends t ss admits a.listeners (start a))
        (λ r p. record {
          fresh = subst (λ l. Ascending a.next_channel l r.1.next_channel) (sym p.log) p.fresh;
          admitted = subst (All (λ (x : Accepted). admits x.0.cmd ≡ true)) (sym p.log) p.admitted;
          matched = λ k. omega (arith, p.matched k, ap (sending k) p.log);
        })

  pub try_accept-Hands :
      (admits : ℕ → Bool) (a b : Actor t ss) (sent : List Accepted)
      → try_accept t ss admits a ≡ some (b, sent)
      → Hands admits a b sent
  try_accept-Hands admits a b sent e =
      Returning-eq-some (λ r. Hands admits a r.0 r.1) (try_accept t ss admits a) (b, sent)
        (try_accept-Returning admits a) e

  settle_conn-le :
      (inbox : Inbox) (p : ss.Sockets) (h k : ℕ) (o : Out t)
      → Returning (λ r. listening k r.0 ≤ hit o.0.cmd_rx k) (settle_conn t ss inbox p h o)
  unfolding settle_conn
  settle_conn-le inbox p h k (c, s, log) = elim (Bool-cases (inbox.is_closed && inbox.is_empty)) [
    | inl dead ↦ rw dead (
        Returning-bind _ _ (ss.remove (ss.put p h (t.abort s)) h) _ (returned _)
          (λ q _. omega arith))
    | inr alive ↦ rw alive (omega arith)
  ]

  service_conn-le :
      (inbox : ℕ → Inbox) (k : ℕ) (p : ss.Sockets) (h : ℕ) (c : ConnState)
      → Returning (λ r. listening k r.0 ≤ hit c.cmd_rx k) (service_conn t ss inbox p h c)
  unfolding service_conn
  service_conn-le inbox k p h c = Returning-bind _ _ (ss.get p h) _ (returned _) (λ s _.
      let x = inbox c.cmd_rx in
      subst
        (λ n.
          Returning (λ r. listening k r.0 ≤ hit n k)
            (settle_conn t ss x p h (service t x.gone x.arrivals c s)))
        (service-cmd_rx t x.gone x.arrivals c s)
        (settle_conn-le x p h k (service t x.gone x.arrivals c s)))

  service_conns-le :
      (inbox : ℕ → Inbox) (k : ℕ) (m : List (ℕ × ConnState)) (p : ss.Sockets)
      → Returning (λ r. listening k r.0 ≤ listening k m) (service_conns t ss inbox p m)
  unfolding service_conns
  service_conns-le inbox k [] p = omega arith
  service_conns-le inbox k ((h, c) ∷ m) p =
      Returning-bind _ _ (service_conn t ss inbox p h c) _ (service_conn-le inbox k p h c) (λ one b.
        Returning-bind _ _ (service_conns t ss inbox one.1 m) _ (service_conns-le inbox k m one.1)
          (λ rest d. omega (arith, b, d, listening-append k one.0 rest.0)))

  -- `service_commands` keeps the channels of the connections that it retains, and makes none.
  pub service_commands-le :
      (inbox : ℕ → Inbox) (k : ℕ) (a b : Actor t ss) (log : List Event)
      → service_commands t ss inbox a ≡ some (b, log)
      → (listening k b.conns ≤ listening k a.conns) × (b.next_channel ≡ a.next_channel)
  unfolding service_commands
  service_commands-le inbox k a b log e =
      Returning-eq-some
        (λ (r : Actor t ss × List Event).
          (listening k r.0.conns ≤ listening k a.conns) × (r.0.next_channel ≡ a.next_channel))
        (service_commands t ss inbox a) (b, log)
        (Returning-bind _ _ (service_conns t ss inbox a.sockets a.conns) _
          (service_conns-le inbox k a.conns a.sockets) (λ r p. (p, refl)))
        e
