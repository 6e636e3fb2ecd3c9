-- ===== src/Netstack.antt =====
-- src/netstack/mod.rs.
pub mod Vconn
pub mod Socket
pub mod Conn
pub mod Actor
pub mod Run
pub mod Spawn
pub mod Interface
pub mod Toy
mod Examples
use smoltcp_socks.Common.{ℕ, ◌≡◌, ◌*◌, ◌==◌, if◌then◌else◌, replicate, some}
use smoltcp_socks.Config.{Config}
use smoltcp_socks.Netstack.Socket.{Tcp, TcpLaws, listen}

-- `IDLE_POLL_INTERVAL`, in milliseconds
abbrev pub idle_poll_interval : ℕ
idle_poll_interval = 100

unfoldable pub resolve_mtu : Config → ℕ
resolve_mtu cfg = if cfg.mtu == 0 then 1500 else cfg.mtu

module _ (t : Tcp) where
  unfoldable pub new_tcp_socket : ℕ → ℕ → t.Socket
  new_tcp_socket rx_buf tx_buf =
      t.new_socket (t.new_buffer (replicate rx_buf 0)) (t.new_buffer (replicate tx_buf 0))

  pub new_tcp_socket-listen :
      (laws : TcpLaws t) (rx tx : ℕ)
      → (s : t.Socket) × (t.listen_any (new_tcp_socket rx tx) ≡ some s) × (t.state s ≡ listen)
  unfolding new_tcp_socket
  new_tcp_socket-listen laws rx tx =
      laws.listen_fresh (t.new_buffer (replicate rx 0)) (t.new_buffer (replicate tx 0))
