-- ===== src/Netstack/Socket.antt =====
-- The TCP socket of the `smoltcp` crate, which the repository does not hold: its operations as the
-- code calls them, and the documented behaviour that the code relies on.
use smoltcp_socks.Common.{
  ℕ, ◌==◌, if◌then◌else◌, ◌≤◌, ◌≡◌, Bool, true, false, Option, none, some, Bytes, ◌++◌, length,
  take, Result, ok, err,
}
use smoltcp_socks.Net.{IpAddr}

-- `smoltcp::socket::tcp::State`
pub data State : Type 0 where
  closed listen syn_sent syn_received established fin_wait1 fin_wait2 close_wait : State
  closing last_ack time_wait : State

-- `smoltcp::socket::tcp::RecvError`
pub data RecvError : Type 0 where
  finished invalid_state : RecvError

-- `smoltcp::wire::IpEndpoint`
pub record Endpoint : Type 0 where
  pub addr : IpAddr
  pub port : ℕ

-- `new_buffer` is `SocketBuffer::new` over the bytes of a vector. `recv_slice s n` is a call with a buffer of `n` bytes and gives the bytes put into it; a failed
-- `send_slice` gives `none`. `unread` are the octets received and not yet read, and `queued` all the
-- octets that the socket has ever taken for sending: they serve the laws alone.
pub record Tcp : Type 1 where
  pub Socket : Type 0
  pub SocketBuffer : Type 0
  pub new_buffer : Bytes → SocketBuffer
  pub new_socket : SocketBuffer → SocketBuffer → Socket
  pub listen_any : Socket → Option Socket
  pub state : Socket → State
  pub local_endpoint : Socket → Option Endpoint
  pub remote_endpoint : Socket → Option Endpoint
  pub may_recv : Socket → Bool
  pub can_recv : Socket → Bool
  pub may_send : Socket → Bool
  pub can_send : Socket → Bool
  pub recv_queue : Socket → ℕ
  pub recv_slice : Socket → ℕ → Result Bytes RecvError × Socket
  pub send_slice : Socket → Bytes → Option ℕ × Socket
  pub close : Socket → Socket
  pub abort : Socket → Socket
  pub unread : Socket → Bytes
  pub queued : Socket → Bytes

-- What a call that touches only the send half leaves alone.
pub record SameReceive (t : Tcp) (s s' : t.Socket) : Type 0 where
  pub may_recv : t.may_recv s' ≡ t.may_recv s
  pub can_recv : t.can_recv s' ≡ t.can_recv s
  pub unread : t.unread s' ≡ t.unread s

-- What a call that touches only the receive half leaves alone.
pub record SameSend (t : Tcp) (s s' : t.Socket) : Type 0 where
  pub may_send : t.may_send s' ≡ t.may_send s
  pub can_send : t.can_send s' ≡ t.can_send s
  pub queued : t.queued s' ≡ t.queued s

pub record TcpLaws (t : Tcp) : Type 0 where
  pub listen_fresh :
      (rx tx : t.SocketBuffer)
      → (s : t.Socket) × (t.listen_any (t.new_socket rx tx) ≡ some s) × (t.state s ≡ listen)
  pub queue_length : (s : t.Socket) → t.recv_queue s ≡ length (t.unread s)
  pub can_recv_some : (s : t.Socket) → t.can_recv s ≡ true → 1 ≤ t.recv_queue s
  pub recv_takes :
      (s : t.Socket) (n : ℕ) (d : Bytes)
      → (t.recv_slice s n).0 ≡ ok d
      → (length d ≤ n) × (t.unread s ≡ d ++ t.unread (t.recv_slice s n).1)
  pub recv_progress :
      (s : t.Socket) (n : ℕ)
      → t.can_recv s ≡ true
      → 1 ≤ n
      → (d : Bytes) × ((t.recv_slice s n).0 ≡ ok d) × (1 ≤ length d)
  pub recv_refused :
      (s : t.Socket) (n : ℕ) (e : RecvError)
      → (t.recv_slice s n).0 ≡ err e
      → t.unread (t.recv_slice s n).1 ≡ t.unread s
  pub recv_closed :
      (s : t.Socket) (n : ℕ)
      → t.may_recv s ≡ false
      → (e : RecvError) × ((t.recv_slice s n).0 ≡ err e)
  pub recv_keeps_send : (s : t.Socket) (n : ℕ) → SameSend t s (t.recv_slice s n).1
  pub send_takes :
      (s : t.Socket) (d : Bytes) (n : ℕ)
      → (t.send_slice s d).0 ≡ some n
      → (n ≤ length d) × (t.queued (t.send_slice s d).1 ≡ t.queued s ++ take n d)
  pub send_progress :
      (s : t.Socket) (d : Bytes)
      → t.can_send s ≡ true
      → 1 ≤ length d
      → (n : ℕ) × ((t.send_slice s d).0 ≡ some n) × (1 ≤ n)
  pub send_refused :
      (s : t.Socket) (d : Bytes)
      → (t.send_slice s d).0 ≡ none
      → t.queued (t.send_slice s d).1 ≡ t.queued s
  pub send_closed : (s : t.Socket) (d : Bytes) → t.may_send s ≡ false → (t.send_slice s d).0 ≡ none
  pub send_keeps_recv : (s : t.Socket) (d : Bytes) → SameReceive t s (t.send_slice s d).1
  pub close_unread : (s : t.Socket) → t.unread (t.close s) ≡ t.unread s
  pub close_ends_send : (s : t.Socket) → t.may_send (t.close s) ≡ false
  pub close_queued : (s : t.Socket) → t.queued (t.close s) ≡ t.queued s
  pub abort_unread : (s : t.Socket) → t.unread (t.abort s) ≡ t.unread s
  pub abort_recv : (s : t.Socket) → t.may_recv (t.abort s) ≡ t.can_recv (t.abort s)
  pub abort_ends_send : (s : t.Socket) → t.may_send (t.abort s) ≡ false
  pub abort_queued : (s : t.Socket) → t.queued (t.abort s) ≡ t.queued s

-- `smoltcp::iface::SocketSet`: a handle is a number. `get` is `get_mut`, which panics (`none`) on a
-- handle that is not in the set, as `remove` does; `put` is what a write through the reference of
-- `get_mut` leaves.
pub record SocketSet (t : Tcp) : Type 1 where
  pub Sockets : Type 0
  pub empty : Sockets
  pub get : Sockets → ℕ → Option t.Socket
  pub put : Sockets → ℕ → t.Socket → Sockets
  pub add : Sockets → t.Socket → ℕ × Sockets
  pub remove : Sockets → ℕ → Option Sockets

pub record SocketSetLaws (t : Tcp) (ss : SocketSet t) : Type 0 where
  pub get-empty : (j : ℕ) → ss.get ss.empty j ≡ none
  pub get-put :
      (p : ss.Sockets) (h : ℕ) (old s : t.Socket) (j : ℕ)
      → ss.get p h ≡ some old
      → ss.get (ss.put p h s) j ≡ (if h == j then some s else ss.get p j)
  pub add_fresh : (p : ss.Sockets) (s : t.Socket) → ss.get p (ss.add p s).0 ≡ none
  pub get-add :
      (p : ss.Sockets) (s : t.Socket) (j : ℕ)
      → ss.get (ss.add p s).1 j ≡ (if (ss.add p s).0 == j then some s else ss.get p j)
  pub remove_live :
      (p : ss.Sockets) (h : ℕ) (old : t.Socket)
      → ss.get p h ≡ some old
      → (q : ss.Sockets) × (ss.remove p h ≡ some q)
        × ((j : ℕ) → ss.get q j ≡ (if h == j then none else ss.get p j))
