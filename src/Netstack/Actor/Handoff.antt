-- ===== src/Netstack/Actor/Handoff.antt =====
-- What one round of the loop of src/netstack/actor.rs's `try_accept` does with a connection.
use smoltcp_socks.Common.{
  ℕ, suc, ◌≡◌, ◌⊎◌, inl, inr, refl, ap, ◌∙◌, ◌==◌, if◌then◌else◌, Bool, true, false, List, [], ◌∷◌,
  ◌++◌, Option, none, some, arith,
}
use smoltcp_socks.Netstack.Vconn
use smoltcp_socks.Netstack.Vconn.{ConnMeta, VConn, ConnCmd, read, write, close_write, close}
use smoltcp_socks.Netstack.{new_tcp_socket-listen}
use smoltcp_socks.Netstack.Socket.{
  Tcp, TcpLaws, SocketSet, SocketSetLaws, Endpoint, listen, established, close_wait,
}
use smoltcp_socks.Netstack.Conn
use smoltcp_socks.Netstack.Conn.{
  ConnState, Event, Out, Arrival, service, service_io, handle_cmd, round, drain, fail_pending,
}
use smoltcp_socks.Netstack.Actor.{
  offer, verdict, meta_of, socket_addr, insert, Accepting, add_listening, add_wildcard_listener,
  replace_listener, hand_off, offer_conn, dispatch, accept_slot, tcp_rx_buf, tcp_tx_buf,
}

-- The connection of a handle.
abbrev pub lookup : ℕ → List (ℕ × ConnState) → Option ConnState
lookup j [] = none
lookup j ((h, c) ∷ m) = if h == j then some c else lookup j m

lookup-insert :
    (j h : ℕ) (c : ConnState) (m : List (ℕ × ConnState))
    → lookup j (insert h c m) ≡ (if h == j then some c else lookup j m)
unfolding insert
lookup-insert j h c [] = refl
lookup-insert j h c ((i, d) ∷ m) = ground (arith, lookup-insert j h c m)

abbrev pub meta_between : Endpoint → Endpoint → ConnMeta
meta_between local remote = record {
  src = record { ip = remote.addr; port = remote.port };
  dst = record { ip = local.addr; port = local.port };
}

module _ (t : Tcp) where
  -- A socket whose handshake has ended, perhaps with a FIN behind it, and its two ends.
  pub record IsConnected (s : t.Socket) (local remote : Endpoint) : Type 0 where
    pub state : (t.state s ≡ established) ⊎ (t.state s ≡ close_wait)
    pub local_end : t.local_endpoint s ≡ some local
    pub remote_end : t.remote_endpoint s ≡ some remote

module _ (t : Tcp) (ss : SocketSet t) where
  -- From `a` to `b` the connection of `h` has been handed off, and `h'` holds the next listener.
  pub record HandsOff (a : Accepting t ss) (h : ℕ) (meta : ConnMeta) (h' : ℕ) (b : Accepting t ss)
      : Type 0 where
    pub sent : b.accepted ≡ a.accepted ++ (Vconn.new meta a.next_channel, meta) ∷ []
    pub registered :
        (j : ℕ)
        → lookup j b.conns ≡ (if h == j then some (Conn.new a.next_channel) else lookup j a.conns)
    pub channel : b.next_channel ≡ suc a.next_channel
    pub listener : t.Socket
    pub listening : t.state listener ≡ listen
    pub unused : ss.get a.sockets h' ≡ none
    pub sockets :
        (j : ℕ) → ss.get b.sockets j ≡ (if h' == j then some listener else ss.get a.sockets j)

  -- From `a` to `b` the socket of `h` has been replaced by a listener at `h'`, and nothing was sent.
  pub record Replaces (a : Accepting t ss) (h h' : ℕ) (b : Accepting t ss) : Type 0 where
    pub sent : b.accepted ≡ a.accepted
    pub registered : b.conns ≡ a.conns
    pub listener : t.Socket
    pub listening : t.state listener ≡ listen
    pub sockets :
        (j : ℕ)
        → ss.get b.sockets j
          ≡ (if h' == j then some listener else if h == j then none else ss.get a.sockets j)

module _ (t : Tcp) (laws : TcpLaws t) (ss : SocketSet t) (set_laws : SocketSetLaws t ss) where
  add_wildcard_listener-get :
      (p : ss.Sockets)
      → (h : ℕ) × (q : ss.Sockets) × (l : t.Socket) × (add_wildcard_listener t ss p ≡ some (h, q))
        × (t.state l ≡ listen)
        × (ss.get p h ≡ none)
        × ((j : ℕ) → ss.get q j ≡ (if h == j then some l else ss.get p j))
  unfolding add_wildcard_listener add_listening
  add_wildcard_listener-get p =
      let (s, e, fresh) = new_tcp_socket-listen t laws tcp_rx_buf tcp_tx_buf in
      let (h, q) = ss.add p s in
      (h, q, s, ap (add_listening t ss p) e, fresh, set_laws.add_fresh p s, set_laws.get-add p s)

  hand_off-HandsOff :
      (a : Accepting t ss) (h : ℕ) (meta : ConnMeta)
      → (h' : ℕ) × (b : Accepting t ss) × (hand_off t ss a h meta ≡ some (h', b))
        × HandsOff t ss a h meta h' b
  unfolding hand_off
  hand_off-HandsOff a h meta =
      let (h', q, l, e, listening, unused, rest) = add_wildcard_listener-get a.sockets in
      (
        h',
        record {
          sockets = q;
          conns = insert h (Conn.new a.next_channel) a.conns;
          next_channel = suc a.next_channel;
          accepted = a.accepted ++ (Vconn.new meta a.next_channel, meta) ∷ [];
        },
        rw e refl,
        record {
          sent = refl;
          registered = λ j. lookup-insert j h (Conn.new a.next_channel) a.conns;
          channel = refl;
          listener = l;
          listening = listening;
          unused = unused;
          sockets = rest;
        },
      )

  replace_listener-Replaces :
      (a : Accepting t ss) (h : ℕ) (s : t.Socket)
      → ss.get a.sockets h ≡ some s
      → (h' : ℕ) × (b : Accepting t ss) × (replace_listener t ss a h s ≡ some (h', b))
        × Replaces t ss a h h' b
  unfolding replace_listener
  replace_listener-Replaces a h s e =
      let p = ss.put a.sockets h (t.abort s) in
      let at_h : ss.get p h ≡ some (t.abort s) =
        ground (arith, set_laws.get-put a.sockets h s (t.abort s) h e) in
      let (q, removed, left) = set_laws.remove_live p h (t.abort s) at_h in
      let (h', r, l, added, listening, _, rest) = add_wildcard_listener-get q in
      (
        h',
        record a { sockets = r },
        rw (removed, added),
        record {
          sent = refl;
          registered = refl;
          listener = l;
          listening = listening;
          sockets =
              λ j. ground (arith, rest j, left j, set_laws.get-put a.sockets h s (t.abort s) j e);
        },
      )

  offered :
      (s : t.Socket) (local remote : Endpoint)
      → IsConnected t s local remote
      → (verdict (t.state s) ≡ offer)
        × (meta_of (t.local_endpoint s) (t.remote_endpoint s) ≡ some (meta_between local remote))
  unfolding verdict meta_of socket_addr
  offered s local remote c =
      (elim c.state [ inl e ↦ rw e refl | inr e ↦ rw e refl ], rw (c.local_end, c.remote_end) refl)

  -- What an offered connection comes to.
  offer_slot :
      (admits : ℕ → Bool) (a : Accepting t ss) (h : ℕ) (s : t.Socket) (local remote : Endpoint)
      → ss.get a.sockets h ≡ some s
      → IsConnected t s local remote
      → accept_slot t ss admits a h
        ≡ offer_conn t ss admits a h s (some (meta_between local remote))
  unfolding accept_slot dispatch
  offer_slot admits a h s local remote e c =
      let (offers, meta) = offered s local remote c in rw e (rw offers (rw meta refl))

  -- A slot with a connected socket, when the queue admits the connection: exactly one pair is sent,
  -- which names the destination that the client dialled and the client itself, its command channel is
  -- the one that the connection's new entry listens to, the socket stays as it is, and the slot holds
  -- a new listener at a handle that was unused.
  pub accept_slot-HandsOff :
      (admits : ℕ → Bool) (a : Accepting t ss) (h : ℕ) (s : t.Socket) (local remote : Endpoint)
      → ss.get a.sockets h ≡ some s
      → IsConnected t s local remote
      → admits a.next_channel ≡ true
      → (h' : ℕ) × (b : Accepting t ss) × (accept_slot t ss admits a h ≡ some (h', b))
        × HandsOff t ss a h (meta_between local remote) h' b
  unfolding offer_conn
  accept_slot-HandsOff admits a h s local remote e c admitted =
      let (h', b, f, handed) = hand_off-HandsOff a h (meta_between local remote) in
      (h', b, offer_slot admits a h s local remote e c ∙ rw admitted f, handed)

  -- A slot with a connected socket, when the queue is full or closed: nothing is sent, no connection
  -- is registered, the socket is taken out of the set and a new listener takes its place.
  pub accept_slot-Replaces :
      (admits : ℕ → Bool) (a : Accepting t ss) (h : ℕ) (s : t.Socket) (local remote : Endpoint)
      → ss.get a.sockets h ≡ some s
      → IsConnected t s local remote
      → admits a.next_channel ≡ false
      → (h' : ℕ) × (b : Accepting t ss) × (accept_slot t ss admits a h ≡ some (h', b))
        × Replaces t ss a h h' b
  unfolding offer_conn
  accept_slot-Replaces admits a h s local remote e c refused =
      let (h', b, f, r) =
        replace_listener-Replaces (record a { next_channel = suc a.next_channel }) h s e in
      (
        h',
        b,
        offer_slot admits a h s local remote e c ∙ rw refused f,
        record {
          sent = r.sent;
          registered = r.registered;
          listener = r.listener;
          listening = r.listening;
          sockets = r.sockets;
        },
      )
