-- ===== src/Netstack/Actor.antt =====
-- src/netstack/actor.rs, the part of the actor: `NetstackActor`, over the sockets and the socket set
-- of smoltcp. What the other tasks do enters as arguments, and `none` is a panic.
pub mod Ownership
pub mod Service
pub mod Handoff
pub mod Channels
pub mod Sends
mod Examples
use smoltcp_socks.Common.{
  ℕ, zero, suc, ◌+◌, ◌*◌, ◌==◌, if◌then◌else◌, Bool, true, false, ◌&&◌, List, [], ◌∷◌, ◌++◌, Option,
  none, some, min,
}
use smoltcp_socks.Net.{SocketAddr}
use smoltcp_socks.Netstack.{new_tcp_socket}
use smoltcp_socks.Netstack.Vconn.{ConnMeta, VConn}
use smoltcp_socks.Netstack.Vconn
use smoltcp_socks.Netstack.Socket.{
  Tcp, SocketSet, State, Endpoint, listen, syn_received, established, close_wait,
}
use smoltcp_socks.Netstack.Conn.{ConnState, Event, Arrival, Out, service, fail_pending}
use smoltcp_socks.Netstack.Conn

abbrev tcp_rx_buf : ℕ
tcp_rx_buf = 64 * 1024

abbrev tcp_tx_buf : ℕ
tcp_tx_buf = 64 * 1024

abbrev pub listener_pool_size : ℕ
listener_pool_size = 4

-- The commands that a service of a connection finds, and the state of its command channel after it.
pub record Inbox : Type 0 where
  pub gone : ℕ → Bool
  pub arrivals : List Arrival
  pub is_closed : Bool
  pub is_empty : Bool

infixl 5 ◌>>=◌
abbrev pub ◌>>=◌ {ℓ κ} : {A : Type ℓ} {B : Type κ} → Option A → (A → Option B) → Option B
none >>= f = none
some a >>= f = f a

-- What `try_accept` does with a socket in a state.
pub data Verdict : Type 0 where
  keep offer discard : Verdict

verdict : State → Verdict
verdict listen = keep
verdict syn_received = keep
verdict established = offer
verdict close_wait = offer
verdict _ = discard

socket_addr : Endpoint → SocketAddr
socket_addr e = record { ip = e.addr; port = e.port }

meta_of : Option Endpoint → Option Endpoint → Option ConnMeta
unfolding socket_addr
meta_of (some local) (some remote) =
    some (record { src = socket_addr remote; dst = socket_addr local })
meta_of (some local) none = none
meta_of none remote = none

-- `HashMap::insert` and the keys of the map, in one iteration order.
pub insert : ℕ → ConnState → List (ℕ × ConnState) → List (ℕ × ConnState)
insert h c [] = (h, c) ∷ []
insert h c ((j, d) ∷ m) = if j == h then (h, c) ∷ m else (j, d) ∷ insert h c m

module _ (t : Tcp) (ss : SocketSet t) where
  -- `next_channel` names the next command channel that is made.
  pub record Actor : Type 0 where
    pub sockets : ss.Sockets
    pub conns : List (ℕ × ConnState)
    pub listeners : List ℕ
    pub next_channel : ℕ

  -- What `try_accept` changes on its way through the listeners; `accepted` is what it sends.
  pub record Accepting : Type 0 where
    pub sockets : ss.Sockets
    pub conns : List (ℕ × ConnState)
    pub next_channel : ℕ
    pub accepted : List (VConn × ConnMeta)

  add_listening : ss.Sockets → Option t.Socket → Option (ℕ × ss.Sockets)
  add_listening p none = none
  add_listening p (some s) = some (ss.add p s)

  pub add_wildcard_listener : ss.Sockets → Option (ℕ × ss.Sockets)
  unfolding add_listening
  add_wildcard_listener p = add_listening p (t.listen_any (new_tcp_socket t tcp_rx_buf tcp_tx_buf))

  -- The end of the loop body: the socket of the slot is replaced by a new listener.
  replace_listener : Accepting → ℕ → t.Socket → Option (ℕ × Accepting)
  unfolding add_wildcard_listener
  replace_listener a h socket = do
    removed ← ss.remove (ss.put a.sockets h (t.abort socket)) h
    added ← add_wildcard_listener removed
    some (added.0, record a { sockets = added.1 })

  -- The connection goes to the dispatcher, and a new listener takes the slot.
  hand_off : Accepting → ℕ → ConnMeta → Option (ℕ × Accepting)
  unfolding add_wildcard_listener insert
  hand_off a h meta = do
    added ← add_wildcard_listener a.sockets
    some (
      added.0,
      record {
        sockets = added.1;
        conns = insert h (Conn.new a.next_channel) a.conns;
        next_channel = suc a.next_channel;
        accepted = a.accepted ++ (Vconn.new meta a.next_channel, meta) ∷ [];
      },
    )

  -- A connection of known ends is offered once: `admits` says whether `try_send` succeeds for the
  -- command channel that was made for it.
  offer_conn : (ℕ → Bool) → Accepting → ℕ → t.Socket → Option ConnMeta → Option (ℕ × Accepting)
  unfolding hand_off replace_listener
  offer_conn admits a h socket none = replace_listener a h socket
  offer_conn admits a h socket (some meta) =
      if admits a.next_channel
      then hand_off a h meta
      else replace_listener (record a { next_channel = suc a.next_channel }) h socket

  dispatch : (ℕ → Bool) → Accepting → ℕ → t.Socket → Verdict → Option (ℕ × Accepting)
  unfolding offer_conn replace_listener meta_of
  dispatch admits a h socket keep = some (h, a)
  dispatch admits a h socket offer =
      offer_conn admits a h socket (meta_of (t.local_endpoint socket) (t.remote_endpoint socket))
  dispatch admits a h socket discard = replace_listener a h socket

  -- One round of the loop over the listener slots.
  pub accept_slot : (ℕ → Bool) → Accepting → ℕ → Option (ℕ × Accepting)
  unfolding dispatch verdict
  accept_slot admits a h = do
    socket ← ss.get a.sockets h
    dispatch admits a h socket (verdict (t.state socket))

  pub accept_slots : (ℕ → Bool) → Accepting → List ℕ → Option (List ℕ × Accepting)
  unfolding accept_slot
  accept_slots admits a [] = some ([], a)
  accept_slots admits a (h ∷ slots) = do
    slot ← accept_slot admits a h
    rest ← accept_slots admits slot.1 slots
    some (slot.0 ∷ rest.0, rest.1)

  unfoldable pub try_accept : (ℕ → Bool) → Actor → Option (Actor × List (VConn × ConnMeta))
  unfolding accept_slots
  try_accept admits a = do
    r ←
        accept_slots admits
          (record {
            sockets = a.sockets;
            conns = a.conns;
            next_channel = a.next_channel;
            accepted = [];
          })
          a.listeners
    some (
      record {
        sockets = r.1.sockets;
        conns = r.1.conns;
        listeners = r.0;
        next_channel = r.1.next_channel;
      },
      r.1.accepted,
    )

  abbrev Retained : Type 0
  Retained = List (ℕ × ConnState) × ss.Sockets × List Event

  -- The end of the closure: a connection whose relay is gone is dropped with its socket.
  settle_conn : Inbox → ss.Sockets → ℕ → Out t → Option Retained
  settle_conn inbox p h (c, socket, log) =
      let gone = ss.remove (ss.put p h (t.abort socket)) h >>= λ q.
      some ([], q, log ++ (fail_pending c).1) in
      if inbox.is_closed && inbox.is_empty then gone else some ((h, c) ∷ [], ss.put p h socket, log)

  -- The closure of `retain`, for one connection.
  service_conn : (ℕ → Inbox) → ss.Sockets → ℕ → ConnState → Option Retained
  unfolding settle_conn
  service_conn inbox p h c = do
    socket ← ss.get p h
    settle_conn (inbox c.cmd_rx) p h
        (service t (inbox c.cmd_rx).gone (inbox c.cmd_rx).arrivals c socket)

  service_conns : (ℕ → Inbox) → ss.Sockets → List (ℕ × ConnState) → Option Retained
  unfolding service_conn
  service_conns inbox p [] = some ([], p, [])
  service_conns inbox p ((h, c) ∷ conns) = do
    one ← service_conn inbox p h c
    rest ← service_conns inbox one.1 conns
    some (one.0 ++ rest.0, rest.1, one.2 ++ rest.2)

  unfoldable pub service_commands : (ℕ → Inbox) → Actor → Option (Actor × List Event)
  unfolding service_conns
  service_commands inbox a = do
    r ← service_conns inbox a.sockets a.conns
    some (record a { sockets = r.1; conns = r.0 }, r.2)

  add_listeners : ℕ → ss.Sockets → Option (List ℕ × ss.Sockets)
  unfolding add_wildcard_listener
  add_listeners zero p = some ([], p)
  add_listeners (suc n) p = do
    one ← add_wildcard_listener p
    rest ← add_listeners n one.1
    some (one.0 ∷ rest.0, rest.1)

  unfoldable pub with_channels : Option Actor
  unfolding add_listeners
  with_channels = do
    r ← add_listeners listener_pool_size ss.empty
    some (record { sockets = r.1; conns = []; listeners = r.0; next_channel = 0 })
