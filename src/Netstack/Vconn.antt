-- ===== src/Netstack/Vconn.antt =====
-- src/netstack/vconn.rs: the requests and errors of a virtual connection. A oneshot reply channel is
-- the number that identifies it, and so is the command channel of a connection.
use smoltcp_socks.Common.{ℕ, String, Bytes, Option, none, some, Result, err}
use smoltcp_socks.Net.{SocketAddr}

pub record ConnMeta : Type 0 where
  pub src : SocketAddr
  pub dst : SocketAddr

pub data ConnCmd : Type 0 where
  read : (max_len reply : ℕ) → ConnCmd
  write : (body : Bytes) (reply : ℕ) → ConnCmd
  close_write : (reply : ℕ) → ConnCmd
  close : (reply : ℕ) → ConnCmd

-- `std::io::Error` of kind `WouldBlock`, by its message.
pub data IoError : Type 0 where
  would_block : String → IoError

pub data VConnError : Type 0 where
  closed reset actor_gone : VConnError
  io : IoError → VConnError

pub record VConn : Type 0 where
  pub meta : ConnMeta
  pub cmd : ℕ

unfoldable pub new : ConnMeta → ℕ → VConn
new meta cmd = record { meta = meta; cmd = cmd }

unfoldable pub destination : VConn → SocketAddr
destination v = v.meta.dst

-- What the reply channel hands back: the actor's answer, or nothing if the sender was dropped.
abbrev received {ℓ} : {A : Type ℓ} → Option (Result A VConnError) → Result A VConnError
received none = err actor_gone
received (some r) = r

-- The four requests share one shape. `send` says whether the actor took the command, and `answer`
-- what came back on the reply channel.
abbrev request {ℓ} :
    {A : Type ℓ} → (ConnCmd → Option (Option (Result A VConnError))) → ConnCmd → Result A VConnError
request send c = elim (send c) [ none ↦ err actor_gone | some answer ↦ received answer ]

module _ (reply : ℕ) where
  pub read_request :
      (ConnCmd → Option (Option (Result Bytes VConnError))) → ℕ → Result Bytes VConnError
  read_request send max_len = request send (read max_len reply)

  pub write_request :
      (ConnCmd → Option (Option (Result ℕ VConnError))) → Bytes → Result ℕ VConnError
  write_request send body = request send (write body reply)

  pub close_write_request :
      (ConnCmd → Option (Option (Result (Unit {0}) VConnError))) → Result (Unit {0}) VConnError
  close_write_request send = request send (close_write reply)

  pub close_request :
      (ConnCmd → Option (Option (Result (Unit {0}) VConnError))) → Result (Unit {0}) VConnError
  close_request send = request send (close reply)
